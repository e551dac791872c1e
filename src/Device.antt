-- ===== src/Device.antt =====
-- kernel/src/device: the serial port and the device tree.
pub mod Uart
pub mod Dtb
pub mod Driven
