-- ===== src/Device/Uart/Laws.antt =====
-- What the driver does to the hardware, for a port that it supports.
use quakernel.Base.{
  mul_mono, ℕ, ◌%◌, ◌^◌, ◌≤◌, ◌<◌, ◌≡◌, refl, ap, ◌∙◌, arith, true, false, Bool-cases, ◌⊎◌, inl,
  inr, ◌==◌, if◌then◌else◌, add64, ◌<<<◌,
}
use native.Mathlib.Nat.{pow-le-pow_right}
use quakernel.Base.Bits.{bit_and_mask}
use quakernel.Base.Exec.{Exec, returned, ◌>>=◌}
use quakernel.Device.Uart.{
  UartPort, UartStandard, std_16550A, for_16550A, Register, rbr, thr, lsr, register_index, Bus,
  register_address, read_by_width, write_by_width, load_bytes, uart_16550A_read_register,
  uart_16550A_write_register, read_port, write_port, read_if_ready, write_if_ready,
  uart_try_read_byte_from_register, uart_try_write_byte_to_register,
}

-- The widths of the two `switch`es.
abbrev pub IsWidth : ℕ → Type 0
IsWidth w = (w ≡ 1) ⊎ ((w ≡ 2) ⊎ ((w ≡ 4) ⊎ (w ≡ 8)))

-- A 16550A port whose registers the driver can address: with a shift of at most 28 every offset is an
-- `int`.
pub record IsUsable (p : UartPort) : Type 0 where
  pub std : p.std ≡ std_16550A
  pub shift : p.reg_shift ≤ 28
  pub width : IsWidth p.reg_io_width_in_bytes

abbrev pub register_at : UartPort → Register → ℕ
register_at p r = add64 p.base_addr (register_index r <<< p.reg_shift)

pub index-le : (r : Register) → register_index r ≤ 7
index-le r = ground arith

offset-lt : (r : Register) (k : ℕ) → k ≤ 28 → register_index r <<< k < 2 ^ 31
offset-lt r k h = omega (
  arith,
  mul_mono (register_index r) 7 (2 ^ k) (index-le r),
  pow-le-pow_right {n = 2} (omega arith) h,
)

module _ {S : Type 0} (bus : Bus S) where
  register_address_lem :
      (p : UartPort) (r : Register) (s : S)
      → IsUsable p
      → register_address bus p.base_addr p.reg_shift r s ≡ returned (register_at p r) s
  unfolding register_address
  register_address_lem p r s u = ground (arith, offset-lt r p.reg_shift u.shift)

  read_by_width_lem :
      (w reg : ℕ) (s : S)
      → IsWidth w
      → read_by_width bus w reg s ≡ (let (v, s') = bus.load w reg s in returned (v % 256) s')
  unfolding read_by_width load_bytes
  read_by_width_lem w reg s (inl e) = rw e refl
  read_by_width_lem w reg s (inr (inl e)) = rw (e, bit_and_mask 8) refl
  read_by_width_lem w reg s (inr (inr (inl e))) = rw (e, bit_and_mask 8) refl
  read_by_width_lem w reg s (inr (inr (inr e))) = rw (e, bit_and_mask 8) refl

  write_by_width_lem :
      (w reg v : ℕ) (s : S)
      → IsWidth w
      → write_by_width bus w reg v s ≡ returned tt (bus.store w reg v s)
  unfolding write_by_width
  write_by_width_lem w reg v s (inl e) = rw e refl
  write_by_width_lem w reg v s (inr (inl e)) = rw e refl
  write_by_width_lem w reg v s (inr (inr (inl e))) = rw e refl
  write_by_width_lem w reg v s (inr (inr (inr e))) = rw e refl

  -- What one load at a register of the port gives.
  abbrev pub loaded : UartPort → Register → S → ℕ × S
  loaded p r s = bus.load p.reg_io_width_in_bytes (register_at p r) s

  read_port_lem :
      (p : UartPort) (r : Register) (s : S)
      → IsUsable p
      → read_port bus p r s ≡ (let (v, s') = loaded p r s in returned (v % 256) s')
  unfolding uart_16550A_read_register
  read_port_lem p r s u = rw (register_address_lem p r s u, ◌>>=◌) (read_by_width_lem _ _ s u.width)

  write_port_lem :
      (p : UartPort) (r : Register) (v : ℕ) (s : S)
      → IsUsable p
      → write_port bus p r v s
        ≡ returned tt (bus.store p.reg_io_width_in_bytes (register_at p r) v s)
  unfolding uart_16550A_write_register
  write_port_lem p r v s u =
      rw (register_address_lem p r s u, ◌>>=◌) (write_by_width_lem _ _ v s u.width)

  read_if_ready_lem :
      (p : UartPort) (status : ℕ) (s : S)
      → IsUsable p
      → read_if_ready bus p status s ≡ (
          let (v, s') = loaded p rbr s in
          if 0x01 == status then returned (true, v % 256) s' else returned (false, 0) s)
  unfolding read_if_ready
  read_if_ready_lem p status s u = elim (Bool-cases (0x01 == status)) [
    | inl t ↦ rw (t, read_port_lem p rbr s u, ◌>>=◌) refl
    | inr f ↦ rw f refl
  ]

  write_if_ready_lem :
      (p : UartPort) (v status : ℕ) (s : S)
      → IsUsable p
      → write_if_ready bus p v status s ≡ (
          if 0x01 == status
          then returned true (bus.store p.reg_io_width_in_bytes (register_at p thr) v s)
          else returned false s)
  unfolding write_if_ready
  write_if_ready_lem p v status s u = elim (Bool-cases (0x01 == status)) [
    | inl t ↦ rw (t, write_port_lem p thr v s u, ◌>>=◌) refl
    | inr f ↦ rw f refl
  ]

  pub for_16550A_lem :
      {A : Type 0} {std : UartStandard} {body : Exec S A}
      → std ≡ std_16550A
      → for_16550A bus std body ≡ body
  for_16550A_lem {body = body} e = ap (λ std. for_16550A bus std body) e ∙ unfold for_16550A in refl

  -- On a supported port the receiver first loads the line status register. If its low byte is exactly
  -- 1, the receiver buffer is loaded next and its low byte is the result; otherwise the device is not
  -- touched again and 0 is left in `*_out`.
  pub uart_try_read_byte_from_register_lem :
      (p : UartPort) (s : S)
      → IsUsable p
      → uart_try_read_byte_from_register bus p s ≡ (
          let (status, s1) = loaded p lsr s in
          let (byte, s2) = loaded p rbr s1 in
          if 0x01 == status % 256 then returned (true, byte % 256) s2 else returned (false, 0) s1)
  unfolding uart_try_read_byte_from_register
  uart_try_read_byte_from_register_lem p s u =
      rw (for_16550A_lem u.std, read_port_lem p lsr s u, ◌>>=◌) (read_if_ready_lem p _ _ u)

  -- On a supported port the transmitter first loads the line status register. If its low byte is
  -- exactly 1, the given byte is stored to the transmitter register, once, and the result is true;
  -- otherwise nothing is stored and the result is false.
  pub uart_try_write_byte_to_register_lem :
      (p : UartPort) (v : ℕ) (s : S)
      → IsUsable p
      → uart_try_write_byte_to_register bus p v s ≡ (
          let (status, s1) = loaded p lsr s in
          if 0x01 == status % 256
          then returned true (bus.store p.reg_io_width_in_bytes (register_at p thr) v s1)
          else returned false s1)
  unfolding uart_try_write_byte_to_register
  uart_try_write_byte_to_register_lem p v s u =
      rw (for_16550A_lem u.std, read_port_lem p lsr s u, ◌>>=◌) (write_if_ready_lem p v _ _ u)
