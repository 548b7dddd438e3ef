-- ===== src/Access.antt =====
-- libvmi/read.c, libvmi/write.c and libvmi/accessors.c: access to guest memory.
pub mod Window
pub mod Env
pub mod Paging
pub mod Lookup
pub mod Read
pub mod Write
pub mod Sized
pub mod Strings
pub mod Translate
