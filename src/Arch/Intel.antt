-- ===== src/Arch/Intel.antt =====
-- libvmi/arch/intel.c: 32-bit paging without and with PAE.
pub mod Fields
pub mod Legacy
pub mod Pae
pub mod LegacyWalk
pub mod PaeWalk
pub mod Pages
