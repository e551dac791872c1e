-- ===== src/Tests/Receive.antt =====
-- Polling a simple receiver while bytes arrive.
use quakernel.Base.{ℕ, ◌%◌, ◌≡◌, ◌≢◌, refl, arith, List, [], ◌∷◌, ◌++◌, ◌==◌, if◌then◌else◌}
use quakernel.Device.Uart.{Bus}
use quakernel.Device.Uart.Laws.{uart_try_read_byte_from_register_lem}
use quakernel.Device.Uart.Receive.{Receiver, Polling, uart_try_read_byte_from_register-in_order}
use quakernel.Tests.Serial.{port, port-IsUsable}

-- The bytes of a queue.
unfoldable pub bytes_of : List ℕ → List ℕ
bytes_of [] = []
bytes_of (b ∷ rest) = b % 256 ∷ bytes_of rest

ready_bit : List ℕ → ℕ
ready_bit [] = 0
ready_bit (b ∷ rest) = 1

unfoldable pub pop : List ℕ → ℕ × List ℕ
pop [] = (0, [])
pop (b ∷ rest) = (b, rest)

abbrev queue_bus : Bus (List ℕ)
queue_bus = record {
  load = λ bytes addr queue. if addr == 0x1000_0005 then (ready_bit queue, queue) else pop queue;
  store = λ bytes addr value queue. queue;
}

ready_lem : (queue : List ℕ) → ready_bit queue % 2 ≡ 1 → bytes_of queue ≢ []
unfolding ready_bit bytes_of
ready_lem [] h e = absurd (omega (arith, h))
ready_lem (b ∷ rest) h e = cc

pub oldest_lem :
    (queue : List ℕ) (b : ℕ) (rest : List ℕ)
    → bytes_of queue ≡ b ∷ rest
    → ((pop queue).0 % 256 ≡ b) × (bytes_of (pop queue).1 ≡ rest)
unfolding pop bytes_of
oldest_lem [] b rest e = cc
oldest_lem (x ∷ queue) b rest e = (cc, cc)

queue_receiver : Receiver queue_bus port
queue_receiver = record {
  fifo = bytes_of;
  status_keeps = λ s. refl;
  status_ready = ready_lem;
  takes_oldest = oldest_lem;
}

-- A byte is read after two have arrived, and then a third one comes.
polls : Polling queue_bus port queue_receiver [] (65 ∷ 66 ∷ 67 ∷ []) (65 ∷ []) (66 ∷ 67 ∷ [])
unfolding bytes_of queue_receiver ready_bit pop
polls = Polling.arrives {s1 = 65 ∷ []} 65 refl (
    Polling.arrives {s1 = 65 ∷ 66 ∷ []} 66 refl (
      Polling.reads {s1 = 66 ∷ []} 65
        (uart_try_read_byte_from_register_lem queue_bus port (65 ∷ 66 ∷ []) port-IsUsable)
        (Polling.arrives {s1 = 66 ∷ 67 ∷ []} 67 refl Polling.stop)))

uart_try_read_byte_from_register-in_order_example :
    (65 ∷ []) ++ queue_receiver.fifo (66 ∷ 67 ∷ []) ≡ queue_receiver.fifo [] ++ (65 ∷ 66 ∷ 67 ∷ [])
uart_try_read_byte_from_register-in_order_example =
    uart_try_read_byte_from_register-in_order queue_bus port queue_receiver port-IsUsable polls
