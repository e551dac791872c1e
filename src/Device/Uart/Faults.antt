-- ===== src/Device/Uart/Faults.antt =====
-- The ports that the driver cannot drive (kernel/src/device/uart.c).
use quakernel.Base.{
  ℕ, ◌^◌, ◌<◌, ◌≡◌, refl, arith, ◌⊎◌, inl, inr, ◌||◌, ltb, leb, Bool-cases, add64, ◌<<<◌,
}
use native.Mathlib.Nat.{pow-le-pow_right}
use quakernel.Base.Exec.{undefined, returned, ◌>>=◌}
use quakernel.Device.Uart.{
  UartPort, std_16550A, lsr, register_index, Bus, register_address, read_by_width,
  uart_16550A_read_register, read_port, uart_try_read_byte_from_register,
  uart_try_write_byte_to_register,
}
use quakernel.Device.Uart.Laws.{IsWidth, for_16550A_lem}

module _ {S : Type 0} (bus : Bus S) where
  read_by_width-undefined :
      (w reg : ℕ) (s : S) → ¬ IsWidth w → read_by_width bus w reg s ≡ undefined
  unfolding read_by_width
  read_by_width-undefined w reg s other = ground arith

  register_address-undefined :
      (base k : ℕ) (s : S) → 28 < k → register_address bus base k lsr s ≡ undefined
  unfolding register_address
  register_address-undefined base k s h =
      let big = pow-le-pow_right {n = 2} (omega arith) {i = 29} {j = k} (omega arith) in
      ground (arith, big)

  register_address-cases :
      (base k : ℕ) (s : S)
      → (register_address bus base k lsr s ≡ undefined)
        ⊎ ((reg : ℕ) × register_address bus base k lsr s ≡ returned reg s)
  unfolding register_address
  register_address-cases base k s =
      elim (Bool-cases (ltb 31 k || leb (2 ^ 31) (register_index lsr <<< k))) [
        | inl t ↦ inl (rw t refl)
        | inr f ↦ inr (add64 base (register_index lsr <<< k), rw f refl)
      ]

  -- The status of a port that has an offset out of range or another width cannot be read.
  read_port-undefined :
      (p : UartPort) (s : S)
      → (28 < p.reg_shift) ⊎ (¬ IsWidth p.reg_io_width_in_bytes)
      → read_port bus p lsr s ≡ undefined
  unfolding uart_16550A_read_register
  read_port-undefined p s (inl far) =
      rw (register_address-undefined p.base_addr p.reg_shift s far, ◌>>=◌) refl
  read_port-undefined p s (inr other) = elim (register_address-cases p.base_addr p.reg_shift s) [
    | inl e ↦ rw (e, ◌>>=◌) refl
    | inr (reg, e) ↦ rw (e, ◌>>=◌) (read_by_width-undefined p.reg_io_width_in_bytes reg s other)
  ]

  -- Neither can be driven: the status register is read first.
  pub uart_try_read_byte_from_register-undefined :
      (p : UartPort) (s : S)
      → p.std ≡ std_16550A
      → (28 < p.reg_shift) ⊎ (¬ IsWidth p.reg_io_width_in_bytes)
      → uart_try_read_byte_from_register bus p s ≡ undefined
  unfolding uart_try_read_byte_from_register
  uart_try_read_byte_from_register-undefined p s std h =
      rw (for_16550A_lem bus std, read_port-undefined p s h, ◌>>=◌) refl

  pub uart_try_write_byte_to_register-undefined :
      (p : UartPort) (v : ℕ) (s : S)
      → p.std ≡ std_16550A
      → (28 < p.reg_shift) ⊎ (¬ IsWidth p.reg_io_width_in_bytes)
      → uart_try_write_byte_to_register bus p v s ≡ undefined
  unfolding uart_try_write_byte_to_register
  uart_try_write_byte_to_register-undefined p v s std h =
      rw (for_16550A_lem bus std, read_port-undefined p s h, ◌>>=◌) refl
