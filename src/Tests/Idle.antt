-- ===== src/Tests/Idle.antt =====
-- A device with a received byte and an idle transmitter, under the driver.
use quakernel.Base.{
  ℕ, ◌%◌, ◌/◌, ◌≡◌, ◌≢◌, refl, arith, Option, none, some, List, [], ◌∷◌, ◌++◌, ◌==◌, if◌then◌else◌,
}
use quakernel.Device.Uart.{Bus}
use quakernel.Device.Uart.Receive.{Receiver}
use quakernel.Device.Uart.Transmit.{Transmitter}
use quakernel.Device.Uart.Laws.{
  uart_try_read_byte_from_register_lem, uart_try_write_byte_to_register_lem,
}
use quakernel.Device.Uart.Idle.{Using, uart_stays_idle}
use quakernel.Tests.Serial.{port, port-IsUsable}
use quakernel.Tests.Receive.{bytes_of, pop, oldest_lem}

record Chip : Type 0 where
  received : List ℕ
  waiting : Option ℕ

status_of : List ℕ → Option ℕ → ℕ
status_of [] none = 0x20
status_of [] (some b) = 0x00
status_of (r ∷ received) none = 0x21
status_of (r ∷ received) (some b) = 0x01

load_chip : ℕ → Chip → ℕ × Chip
load_chip addr c =
    if addr == 0x1000_0005
    then (status_of c.received c.waiting, c)
    else ((pop c.received).0, record c { received = (pop c.received).1 })

abbrev chip_bus : Bus Chip
chip_bus = record {
  load = λ bytes addr c. load_chip addr c;
  store = λ bytes addr value c. record c { waiting = some (value % 256) };
}

status_ready_lem :
    (received : List ℕ) (waiting : Option ℕ)
    → status_of received waiting % 2 ≡ 1
    → bytes_of received ≢ []
unfolding status_of bytes_of
status_ready_lem [] none h e = absurd (omega (arith, h))
status_ready_lem [] (some b) h e = absurd (omega (arith, h))
status_ready_lem (r ∷ received) waiting h e = cc

status_empty_lem :
    (received : List ℕ) (waiting : Option ℕ)
    → waiting ≡ none
    → status_of received waiting / 32 % 2 ≡ 1
unfolding status_of
status_empty_lem [] none e = refl
status_empty_lem (r ∷ received) none e = refl
status_empty_lem received (some b) e = cc

chip_receiver : Receiver chip_bus port
unfolding load_chip
chip_receiver = record {
  fifo = λ c. bytes_of c.received;
  status_keeps = λ c. refl;
  status_ready = λ c. status_ready_lem c.received c.waiting;
  takes_oldest = λ c. oldest_lem c.received;
}

chip_transmitter : Transmitter chip_bus port
unfolding load_chip
chip_transmitter = record {
  holding = λ c. c.waiting;
  status_keeps = λ c. refl;
  status_empty = λ c. status_empty_lem c.received c.waiting;
  replaces = λ v c. refl;
}

-- A byte arrives, is not read, and another one is not sent.
using :
    Using chip_bus port chip_receiver chip_transmitter
      (record { received = []; waiting = none })
      (65 ∷ [])
      []
      []
      (record { received = 65 ∷ []; waiting = none })
unfolding chip_receiver chip_transmitter load_chip status_of bytes_of
using =
    let c : Chip = record { received = 65 ∷ []; waiting = none } in
    Using.arrives {s1 = c} 65 refl refl (
      Using.reads_nothing {s1 = c} 0
        (uart_try_read_byte_from_register_lem chip_bus port c port-IsUsable)
        (Using.sends_nothing {s1 = c} 66
          (uart_try_write_byte_to_register_lem chip_bus port 66 c port-IsUsable) Using.stop))

uart_stays_idle_example :
    (◌≡◌ {A = List ℕ} [] [])
    × (◌≡◌ {A = List ℕ} [] [])
    × (bytes_of (65 ∷ []) ≡ bytes_of [] ++ 65 ∷ [])
    × (◌≡◌ {A = Option ℕ} none none)
unfolding chip_receiver chip_transmitter
uart_stays_idle_example =
    uart_stays_idle chip_bus port chip_receiver chip_transmitter port-IsUsable refl using
