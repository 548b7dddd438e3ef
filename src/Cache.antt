-- ===== src/Cache.antt =====
-- libvmi/cache.c: the four address caches.
pub mod Table
pub mod Keys
pub mod Assoc
pub mod Pid
pub mod Sym
pub mod Rva
pub mod V2p
pub mod Memory
