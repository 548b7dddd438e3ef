-- ===== src/Os.antt =====
-- libvmi/os: what the operating systems' modules find in the guest's memory.
pub mod Linux
pub mod Freebsd
pub mod Windows
pub mod Kernel
