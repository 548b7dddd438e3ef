-- ===== src/Arch/Amd64.antt =====
-- libvmi/arch/amd64.c: the four-level page walk.
pub mod Lookup
pub mod Walk
pub mod Pages
pub mod Listing
pub mod Found
pub mod Grows
pub mod Covered
pub mod Listed
