-- ===== src/Device/Driven.antt =====
-- From the device tree to the serial port: ports that `ParseDtb` (kernel/src/device/dtb_parse.c)
-- finds and that the functions of kernel/src/device/uart.c cannot drive.
