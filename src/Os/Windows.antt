-- ===== src/Os/Windows.antt =====
-- libvmi/os/windows: the headers of PE images and the symbols that these export.
pub mod Peparse
pub mod Names
pub mod Exports
