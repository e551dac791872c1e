-- ===== src/Device/Uart/Receive.antt =====
-- Bytes that arrive while the driver polls: `UartTryReadByteFromRegister` (kernel/src/device/uart.c)
-- on a device that behaves as the data sheet of the 16550A says, in any interleaving with the line.
use mathlib.Core.List.{append_assoc, append-nil}
use quakernel.Base.{
  ℕ, ◌%◌, ◌≡◌, ◌≢◌, refl, sym, ap, ◌∙◌, arith, true, false, Bool-cases, inl, inr, List, [], ◌∷◌,
  ◌++◌, ◌==◌, ==_iff,
}
use quakernel.Base.Exec.{returned}
use quakernel.Device.Uart.{UartPort, rbr, lsr, Bus, uart_try_read_byte_from_register}
use quakernel.Device.Uart.Laws.{IsUsable, loaded, uart_try_read_byte_from_register_lem}

-- The receiver of a 16550A: the bytes in its FIFO, the oldest first. Bit 0 of the line status says
-- that there is one; a load of the line status leaves them alone, and a load of the receiver buffer
-- takes the oldest.
pub record Receiver {S : Type 0} (bus : Bus S) (p : UartPort) : Type 0 where
  pub fifo : S → List ℕ
  pub status_keeps : (s : S) → fifo (loaded bus p lsr s).1 ≡ fifo s
  pub status_ready : (s : S) → (loaded bus p lsr s).0 % 2 ≡ 1 → fifo s ≢ []
  pub takes_oldest :
      (s : S) (b : ℕ) (rest : List ℕ)
      → fifo s ≡ b ∷ rest
      → ((loaded bus p rbr s).0 % 256 ≡ b) × (fifo (loaded bus p rbr s).1 ≡ rest)

module _ {S : Type 0} (bus : Bus S) (p : UartPort) (receiver : Receiver bus p) where
  open receiver use {fifo, status_keeps, status_ready, takes_oldest}

  -- Some time on the line and of the driver, with the bytes that arrived and those that were read: the
  -- device takes a byte from the line, or does something else, or the driver polls it.
  pub data Polling : S → List ℕ → List ℕ → S → Type 0 where
    stop : {s : S} → Polling s [] [] s
    arrives :
        {s s1 s' : S} {arrived read : List ℕ} (b : ℕ)
        → fifo s1 ≡ fifo s ++ b ∷ []
        → Polling s1 arrived read s'
        → Polling s (b ∷ arrived) read s'
    other :
        {s s1 s' : S} {arrived read : List ℕ}
        → fifo s1 ≡ fifo s
        → Polling s1 arrived read s'
        → Polling s arrived read s'
    reads :
        {s s1 s' : S} {arrived read : List ℕ} (b : ℕ)
        → uart_try_read_byte_from_register bus p s ≡ returned (true, b) s1
        → Polling s1 arrived read s'
        → Polling s arrived (b ∷ read) s'
    waits :
        {s s1 s' : S} {arrived read : List ℕ} (b : ℕ)
        → uart_try_read_byte_from_register bus p s ≡ returned (false, b) s1
        → Polling s1 arrived read s'
        → Polling s arrived read s'

  oldest : (l : List ℕ) → l ≢ [] → (b : ℕ) × (rest : List ℕ) × (l ≡ b ∷ rest)
  oldest [] h = absurd (h refl)
  oldest (b ∷ rest) h = (b, rest, refl)

  -- A poll that reads has taken the oldest byte from the device, and one that waits has left it alone.
  fifo-reads :
      (s s1 : S) (b : ℕ)
      → IsUsable p
      → uart_try_read_byte_from_register bus p s ≡ returned (true, b) s1
      → fifo s ≡ b ∷ fifo s1
  fifo-reads s s1 b u e =
      let status = (loaded bus p lsr s).0 in
      let s' = (loaded bus p lsr s).1 in
      let law = uart_try_read_byte_from_register_lem bus p s u in
      elim (Bool-cases (1 == status % 256)) [
        | inl ready ↦
            let (b', rest, e') =
              oldest (fifo s) (status_ready s (omega (arith, (==_iff 1 (status % 256)).0 ready))) in
            let taken = takes_oldest s' b' rest (status_keeps s ∙ e') in
            let law' = rw ready at law in cc (law', taken.0, taken.1, e', e)
        | inr busy ↦ let law' = rw busy at law in cc (law', e)
      ]

  fifo-waits :
      (s s1 : S) (b : ℕ)
      → IsUsable p
      → uart_try_read_byte_from_register bus p s ≡ returned (false, b) s1
      → fifo s1 ≡ fifo s
  fifo-waits s s1 b u e =
      let status = (loaded bus p lsr s).0 in
      let law = uart_try_read_byte_from_register_lem bus p s u in
      elim (Bool-cases (1 == status % 256)) [
        | inl ready ↦ let law' = rw ready at law in cc (law', e)
        | inr busy ↦ let law' = rw busy at law in cc (law', status_keeps s, e)
      ]

  -- On a supported port with a receiver as in the data sheet, whatever the interleaving of bytes that
  -- arrive and of polls, no byte is lost, doubled or reordered: the bytes that were read, followed by
  -- those still in the device, are those that were in the device at first, followed by those that
  -- arrived.
  pub uart_try_read_byte_from_register-in_order :
      {s s' : S} {arrived read : List ℕ}
      → IsUsable p
      → Polling s arrived read s'
      → read ++ fifo s' ≡ fifo s ++ arrived
  uart_try_read_byte_from_register-in_order {s} u stop = sym (append-nil (fifo s))
  uart_try_read_byte_from_register-in_order {s} u (arrives {arrived} b e rest) =
      uart_try_read_byte_from_register-in_order u rest
      ∙ rw e (append_assoc (fifo s) (b ∷ []) arrived)
  uart_try_read_byte_from_register-in_order u (other e rest) =
      uart_try_read_byte_from_register-in_order u rest ∙ rw e refl
  uart_try_read_byte_from_register-in_order {s} u (reads {s1} b e rest) =
      rw (fifo-reads s s1 b u e) (ap (◌∷◌ b) (uart_try_read_byte_from_register-in_order u rest))
  uart_try_read_byte_from_register-in_order {s} u (waits {s1} b e rest) =
      uart_try_read_byte_from_register-in_order u rest ∙ rw (fifo-waits s s1 b u e) refl
