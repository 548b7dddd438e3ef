-- ===== src/Driver.antt =====
-- The drivers, through which libvmi/driver/driver_wrapper.h reaches the memory of a guest.
pub mod File
