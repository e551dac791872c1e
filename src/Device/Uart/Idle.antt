-- ===== src/Device/Uart/Idle.antt =====
-- The driver of kernel/src/device/uart.c on a 16550A whose transmitter has nothing to send.
use mathlib.Core.List.{append_assoc, append-nil}
use quakernel.Base.{
  ℕ, ◌%◌, ◌≡◌, refl, sym, ◌∙◌, arith, true, false, List, [], ◌∷◌, ◌++◌, none, ◌==◌, ne→==,
}
use quakernel.Base.Exec.{returned}
use quakernel.Device.Uart.{
  UartPort, lsr, Bus, uart_try_read_byte_from_register, uart_try_write_byte_to_register,
}
use quakernel.Device.Uart.Laws.{
  IsUsable, loaded, uart_try_read_byte_from_register_lem, uart_try_write_byte_to_register_lem,
}
use quakernel.Device.Uart.Receive.{Receiver}
use quakernel.Device.Uart.Transmit.{Transmitter}

module _ {S : Type 0} (bus : Bus S) (p : UartPort) (receiver : Receiver bus p)
    (transmitter : Transmitter bus p) where
  -- Some time on the line and of the driver, with the bytes that arrived, those that were read, and
  -- those that were reported as sent, each call with whatever result it has.
  pub data Using : S → (arrived read sent : List ℕ) → S → Type 0 where
    stop : {s : S} → Using s [] [] [] s
    arrives :
        {s s1 s' : S} {arrived read sent : List ℕ} (b : ℕ)
        → receiver.fifo s1 ≡ receiver.fifo s ++ b ∷ []
        → transmitter.holding s1 ≡ transmitter.holding s
        → Using s1 arrived read sent s'
        → Using s (b ∷ arrived) read sent s'
    reads :
        {s s1 s' : S} {arrived read sent : List ℕ} (b : ℕ)
        → uart_try_read_byte_from_register bus p s ≡ returned (true, b) s1
        → Using s1 arrived read sent s'
        → Using s arrived (b ∷ read) sent s'
    reads_nothing :
        {s s1 s' : S} {arrived read sent : List ℕ} (b : ℕ)
        → uart_try_read_byte_from_register bus p s ≡ returned (false, b) s1
        → Using s1 arrived read sent s'
        → Using s arrived read sent s'
    sends :
        {s s1 s' : S} {arrived read sent : List ℕ} (v : ℕ)
        → uart_try_write_byte_to_register bus p v s ≡ returned true s1
        → Using s1 arrived read sent s'
        → Using s arrived read (v ∷ sent) s'
    sends_nothing :
        {s s1 s' : S} {arrived read sent : List ℕ} (v : ℕ)
        → uart_try_write_byte_to_register bus p v s ≡ returned false s1
        → Using s1 arrived read sent s'
        → Using s arrived read sent s'

  abbrev IsIdle : S → Type 0
  IsIdle s = transmitter.holding s ≡ none

  -- Both functions look at the line status only.
  looks_only :
      (s : S)
      → IsUsable p
      → IsIdle s
      → (v : ℕ)
      → (uart_try_read_byte_from_register bus p s ≡ returned (false, 0) (loaded bus p lsr s).1)
        × (uart_try_write_byte_to_register bus p v s ≡ returned false (loaded bus p lsr s).1)
  looks_only s u idle v =
      let busy : (1 == (loaded bus p lsr s).0 % 256) ≡ false =
        ne→== 1 ((loaded bus p lsr s).0 % 256) (omega (arith, transmitter.status_empty s idle)) in
      (
        uart_try_read_byte_from_register_lem bus p s u ∙ rw busy refl,
        uart_try_write_byte_to_register_lem bus p v s u ∙ rw busy refl,
      )

  looked-IsIdle : (s : S) → IsIdle s → IsIdle (loaded bus p lsr s).1
  looked-IsIdle s idle = transmitter.status_keeps s ∙ idle

  looked-fifo :
      (s s1 : S) (arrived : List ℕ)
      → s1 ≡ (loaded bus p lsr s).1
      → receiver.fifo s1 ++ arrived ≡ receiver.fifo s ++ arrived
  looked-fifo s s1 arrived same = rw (same, receiver.status_keeps s) refl

  -- On a supported port with a receiver and a transmitter as in the data sheet, while the latter is
  -- idle, no call of the driver ever reads or sends a byte, and none makes it busy: the bytes that
  -- arrive pile up in the device.
  pub uart_stays_idle :
      {s s' : S} {arrived read sent : List ℕ}
      → IsUsable p
      → transmitter.holding s ≡ none
      → Using s arrived read sent s'
      → (read ≡ [])
        × (sent ≡ [])
        × (receiver.fifo s' ≡ receiver.fifo s ++ arrived)
        × (transmitter.holding s' ≡ none)
  uart_stays_idle {s} u idle stop = (refl, refl, sym (append-nil (receiver.fifo s)), idle)
  uart_stays_idle {s} u idle (arrives {s1} {arrived} b e keeps rest) =
      let (r, t, f, i) = uart_stays_idle u (keeps ∙ idle) rest in
      (r, t, f ∙ rw e (append_assoc (receiver.fifo s) (b ∷ []) arrived), i)
  uart_stays_idle {s} u idle (reads b e rest) =
      let law = (looks_only s u idle 0).0 in let never : ⊥ = cc (law, e) in absurd never
  uart_stays_idle {s} u idle (reads_nothing {s1} {arrived} b e rest) =
      let law = (looks_only s u idle 0).0 in
      let same : s1 ≡ (loaded bus p lsr s).1 = cc (law, e) in
      let (r, t, f, i) = uart_stays_idle u (rw same (looked-IsIdle s idle)) rest in
      (r, t, f ∙ looked-fifo s s1 arrived same, i)
  uart_stays_idle {s} u idle (sends v e rest) =
      let law = (looks_only s u idle v).1 in let never : ⊥ = cc (law, e) in absurd never
  uart_stays_idle {s} u idle (sends_nothing {s1} {arrived} v e rest) =
      let law = (looks_only s u idle v).1 in
      let same : s1 ≡ (loaded bus p lsr s).1 = cc (law, e) in
      let (r, t, f, i) = uart_stays_idle u (rw same (looked-IsIdle s idle)) rest in
      (r, t, f ∙ looked-fifo s s1 arrived same, i)
