-- ===== src/Tests/Transmit.antt =====
-- A byte that is written while another one waits, with a received byte to be read.
use quakernel.Base.{
  ℕ, ◌%◌, ◌/◌, ◌≡◌, refl, Bool, true, false, ◌⊎◌, Option, none, some, ◌==◌, if◌then◌else◌,
}
use quakernel.Base.Exec.{returned}
use quakernel.Device.Uart.{Bus, uart_try_write_byte_to_register}
use quakernel.Device.Uart.Transmit.{Transmitter, uart_try_write_byte_to_register-overwrites}
use quakernel.Tests.Serial.{port, port-IsUsable}

-- Data ready, and the holding register empty or not.
status : Option ℕ → ℕ
status none = 0x21
status (some b) = 0x01

abbrev sender_bus : Bus (Option ℕ)
sender_bus = record {
  load = λ bytes addr waiting. (if addr == 0x1000_0005 then status waiting else 0, waiting);
  store = λ bytes addr value waiting. some (value % 256);
}

status-empty : (waiting : Option ℕ) → waiting ≡ none → status waiting / 32 % 2 ≡ 1
unfolding status
status-empty none e = refl
status-empty (some b) e = cc

sender : Transmitter sender_bus port
sender = record {
  holding = λ waiting. waiting;
  status_keeps = λ s. refl;
  status_empty = status-empty;
  replaces = λ v s. refl;
}

uart_try_write_byte_to_register-overwrites_example :
    (ok : Bool) × (s' : Option ℕ) × (uart_try_write_byte_to_register sender_bus port 66 (some 65)
      ≡ returned ok s')
    × (((ok ≡ false) × (s' ≡ some 65))
        ⊎ ((ok ≡ true) × (b : ℕ) × (some 65 ≡ some b) × (s' ≡ some (66 % 256))))
unfolding sender
uart_try_write_byte_to_register-overwrites_example =
    uart_try_write_byte_to_register-overwrites sender_bus port sender 66 (some 65) port-IsUsable
