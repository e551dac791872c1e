-- ===== src/Device/Uart/Transmit.antt =====
-- What becomes of the bytes that `UartTryWriteByteToRegister` (kernel/src/device/uart.c) writes, on a
-- device that behaves as the data sheet of the 16550A says without its FIFOs.
use quakernel.Base.{
  ℕ, ◌/◌, ◌%◌, ◌≡◌, ◌≢◌, refl, arith, Bool, true, false, Bool-cases, ◌⊎◌, inl, inr, Option, none,
  some, Option-cases, ◌==◌, ==_iff,
}
use quakernel.Base.Exec.{returned}
use quakernel.Device.Uart.{UartPort, lsr, thr, Bus, uart_try_write_byte_to_register}
use quakernel.Device.Uart.Laws.{IsUsable, loaded, register_at, uart_try_write_byte_to_register_lem}

-- The transmitter of a 16550A: the byte in its holding register, which waits to be sent. Bit 5 of the
-- line status says that there is none; a load of the line status leaves it alone, and a store to the
-- holding register replaces it.
pub record Transmitter {S : Type 0} (bus : Bus S) (p : UartPort) : Type 0 where
  pub holding : S → Option ℕ
  pub status_keeps : (s : S) → holding (loaded bus p lsr s).1 ≡ holding s
  pub status_empty : (s : S) → holding s ≡ none → (loaded bus p lsr s).0 / 32 % 2 ≡ 1
  pub replaces :
      (v : ℕ) (s : S)
      → holding (bus.store p.reg_io_width_in_bytes (register_at p thr) v s) ≡ some (v % 256)

module _ {S : Type 0} (bus : Bus S) (p : UartPort) (transmitter : Transmitter bus p) where
  open transmitter use {holding, status_keeps, status_empty, replaces}

  -- On a supported port with a transmitter as in the data sheet the function returns. Either its
  -- result is false and the holding register is as before; or its result is true, and the byte has
  -- replaced another one, which had not been sent yet. So an idle transmitter is never given a byte.
  pub uart_try_write_byte_to_register-overwrites :
      (v : ℕ) (s : S)
      → IsUsable p
      → (ok : Bool) × (s' : S) × (uart_try_write_byte_to_register bus p v s ≡ returned ok s')
        × (((ok ≡ false) × (holding s' ≡ holding s))
            ⊎ ((ok ≡ true) × (b : ℕ) × (holding s ≡ some b) × (holding s' ≡ some (v % 256))))
  uart_try_write_byte_to_register-overwrites v s u =
      let status = (loaded bus p lsr s).0 in
      let s1 = (loaded bus p lsr s).1 in
      let law = uart_try_write_byte_to_register_lem bus p v s u in
      elim (Bool-cases (1 == status % 256)) [
        | inl ready ↦
            let stored = bus.store p.reg_io_width_in_bytes (register_at p thr) v s1 in
            let full : holding s ≢ none =
              λ e. omega (arith, status_empty s e, (==_iff 1 (status % 256)).0 ready) in
            elim (Option-cases (holding s)) [
              | inl e ↦ absurd (full e)
              | inr (b, e) ↦ (true, stored, rw ready at law, inr (refl, b, e, replaces v s1))
            ]
        | inr busy ↦ (false, s1, rw busy at law, inl (refl, status_keeps s))
      ]
