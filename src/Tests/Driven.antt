-- ===== src/Tests/Driven.antt =====
-- A device tree with one serial port, whose registers are too far apart, and the driver on it.
use quakernel.Base.{ℕ, some, [], ◌==◌, if◌then◌else◌, u8, u32}
use quakernel.Base.Int.{ℤ, pos, negsuc}
use quakernel.CString.{codes}
use quakernel.CString.Standard
use quakernel.Device.Uart.{UartPort, std_16550A}
use quakernel.Device.Dtb.{Fdt}
use quakernel.Device.Dtb.Register.{encode_cell}
use quakernel.Tests.Tree.{find, props, same_text, board}

pub next_far : ℕ → ℤ
next_far n = if n == 0 then pos 24 else negsuc 0

-- The board with nothing but its port, whose shift is 29.
abbrev far : Fdt
far = record board {
  getprop = λ node name.
      if same_text name (codes "reg-shift")
      then some (encode_cell 29 [])
      else find name (props node);
  next_node = next_far;
}

abbrev far_port : UartPort
far_port = record {
  base_addr = 0x1000_0000;
  size = u32 0x100;
  phandle = 5;
  std = std_16550A;
  reg_shift = u8 29;
  reg_io_width_in_bytes = u8 4;
}
