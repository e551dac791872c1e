-- ===== src/Tests/Serial.antt =====
-- The serial port on a simple device.
use quakernel.Base.{
  ℕ, ◌+◌, ◌≤◌, Bool, ◌&&◌, leb, ◌≡◌, refl, arith, inl, true, List, [], ◌∷◌, ◌==◌, if◌then◌else◌,
}
use quakernel.Device.Uart.{
  UartPort, std_16550A, Bus, uart_try_read_byte_from_register, uart_try_write_byte_to_register,
}
use quakernel.Device.Uart.Laws.{IsUsable}
use quakernel.Device.Uart.Window.{HoldsRegisters, SameInWindow, uart_InWindow}

-- A device with a line status and a received byte, and the bytes that were sent.
pub record Wire : Type 0 where
  pub status : ℕ
  pub received : ℕ
  pub sent : List ℕ

abbrev pub wire_bus : Bus Wire
wire_bus = record {
  load = λ bytes addr w. (if addr == 0x1000_0005 then w.status else w.received, w);
  store = λ bytes addr value w. record w { sent = value ∷ w.sent };
}

abbrev pub port : UartPort
port = record {
  base_addr = 0x1000_0000;
  size = 0x100;
  phandle = 1;
  std = std_16550A;
  reg_shift = 0;
  reg_io_width_in_bytes = 1;
}

pub port-IsUsable : IsUsable port
port-IsUsable = record { std = refl; shift = omega arith; width = inl refl }

abbrev pub waiting : Wire
waiting = record { status = 1; received = 65; sent = [] }

-- The same device, with nothing behind the other addresses.
in_window : ℕ → ℕ → Bool
in_window bytes addr = leb 0x1000_0000 addr && leb (addr + bytes) 0x1000_0100

abbrev fenced_bus : Bus Wire
fenced_bus = record {
  load = λ bytes addr w. if in_window bytes addr then wire_bus.load bytes addr w else (0xff, w);
  store =
      λ bytes addr value w. if in_window bytes addr then wire_bus.store bytes addr value w else w;
}

in_window_lem :
    (bytes addr : ℕ)
    → (0x1000_0000 ≤ addr) × (addr + bytes ≤ 0x1000_0100)
    → in_window bytes addr ≡ true
unfolding in_window
in_window_lem bytes addr h = ground arith

fenced-SameInWindow : SameInWindow port wire_bus fenced_bus
fenced-SameInWindow = record {
  loads = λ bytes addr s h. rw (in_window_lem bytes addr h) refl;
  stores = λ bytes addr v s h. rw (in_window_lem bytes addr h) refl;
}

port-HoldsRegisters : HoldsRegisters port
port-HoldsRegisters = record { holds = omega arith; fits = omega arith }

uart_InWindow_example :
    (uart_try_read_byte_from_register wire_bus port waiting
      ≡ uart_try_read_byte_from_register fenced_bus port waiting)
    × (uart_try_write_byte_to_register wire_bus port 66 waiting
        ≡ uart_try_write_byte_to_register fenced_bus port 66 waiting)
uart_InWindow_example =
    uart_InWindow port wire_bus fenced_bus port-IsUsable port-HoldsRegisters fenced-SameInWindow 66
      waiting
