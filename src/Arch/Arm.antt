-- ===== src/Arch/Arm.antt =====
-- libvmi/arch/arm_aarch32.c and libvmi/arch/arm_aarch64.c.
pub mod Aarch32
pub mod Aarch32Walk
pub mod Aarch64
pub mod Aarch64Walk
