-- ===== src/Arch.antt =====
-- libvmi/arch: the page walks of each architecture and the choice among them.
pub mod Entry
pub mod Steps
pub mod Pages
pub mod Radix
pub mod Amd64
pub mod Intel
pub mod Arm
pub mod Modes
