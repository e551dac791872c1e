-- ===== src/Arch.antt =====
-- kernel/src/arch: the interrupt controllers that the device tree names.
pub mod Interrupts
pub mod X86
