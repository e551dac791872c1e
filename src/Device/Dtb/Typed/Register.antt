-- ===== src/Device/Dtb/Typed/Register.antt =====
-- The numbers that `ParseNodeRegister` (kernel/src/device/dtb_parse.c) reads have 64 bits.
use quakernel.Base.{
  ℕ, ◌+◌, ◌*◌, ◌^◌, ◌<◌, ◌≡◌, arith, Bool-cases, inl, inr, Option, some, List, ◌==◌, bit_or, u64,
  ◌<<<◌,
}
use quakernel.Base.Bits.{bit_or_above}
use quakernel.Base.Int.{ℤ, pos, negsuc}
use quakernel.Base.Exec.{Exec, from_option, pure, ◌>>=◌}
use quakernel.Base.Yields.{Yields, Yields-bind, Yields-mono, from_option-Yields}
use quakernel.CString.{codes}
use quakernel.Device.Dtb.{
  Fdt, RegisterResult, failed, parsed, cell, word_at, read_addr, read_size, checked,
  parse_node_register,
}

-- `fdt32_to_cpu` returns a `uint32_t`.
abbrev pub ReturnsWord : Fdt → Type 0
ReturnsWord fdt = (w : ℕ) → fdt.fdt32_to_cpu w < 2 ^ 32

-- What is read, if anything is.
abbrev pub IsTypedRegister : RegisterResult → Type 0
IsTypedRegister (failed code) = Unit
IsTypedRegister (parsed addr size) = (addr < 2 ^ 64) × (size < 2 ^ 64)

module _ (fdt : Fdt) (word : ReturnsWord fdt) {S : Type 0} (Q : S → Type 0) where
  pub cell-Yields :
      (p : Option (List ℕ)) (i : ℕ) (s : S) → Q s → Yields Q (λ w. w < 2 ^ 32) (cell fdt p i s)
  unfolding cell
  cell-Yields p i s q =
      Yields-bind Q (λ bytes. p ≡ some bytes) (λ w. w < 2 ^ 32) (from_option p)
        (λ bytes. from_option (word_at bytes i) >>= λ w. pure (fdt.fdt32_to_cpu w)) s
        (from_option-Yields Q p s q)
        λ bytes s1 _ q1.
          Yields-bind Q (λ w. word_at bytes i ≡ some w) (λ w. w < 2 ^ 32)
            (from_option (word_at bytes i)) (λ w. pure (fdt.fdt32_to_cpu w)) s1
            (from_option-Yields Q (word_at bytes i) s1 q1) λ w s2 _ q2. (word w, q2)

  -- Two cells, joined.
  joined-Yields :
      {A : Type 0} (P : A → Type 0) (make : ℕ → A) (p : Option (List ℕ)) (i j : ℕ) (s : S)
      → ((v : ℕ) → v < 2 ^ 64 → P (make v))
      → Q s
      → Yields Q P (
          (do high ← cell fdt p i; low ← cell fdt p j; pure (make (bit_or (u64 (high <<< 32)) low)))
            s)
  joined-Yields P make p i j s fits q =
      Yields-bind Q (λ w. w < 2 ^ 32) P (cell fdt p i)
        (λ high. cell fdt p j >>= λ low. pure (make (bit_or (u64 (high <<< 32)) low))) s
        (cell-Yields p i s q)
        λ high s1 h q1.
          Yields-bind Q (λ w. w < 2 ^ 32) P (cell fdt p j)
            (λ low. pure (make (bit_or (u64 (high <<< 32)) low))) s1 (cell-Yields p j s1 q1)
            λ low s2 l q2.
              let shifted : u64 (high <<< 32) ≡ high * 2 ^ 32 = omega arith in
              (
                fits (bit_or (u64 (high <<< 32)) low)
                    (rw (shifted, bit_or_above 32 high low l) (omega arith)),
                q2,
              )

  read_addr-Yields :
      (addr_cells : ℕ) (reg : Option (List ℕ)) (s : S)
      → Q s
      → Yields Q (λ (r : ℕ × ℕ). r.0 < 2 ^ 64) (read_addr fdt addr_cells reg s)
  unfolding read_addr
  read_addr-Yields addr_cells reg s q = elim (Bool-cases (addr_cells == 0)) [
    | inl none' ↦ rw none' (omega arith, q)
    | inr some' ↦ elim (Bool-cases (addr_cells == 2)) [
      | inl two ↦
          rw (some', two)
            (joined-Yields (λ (r : ℕ × ℕ). r.0 < 2 ^ 64) (λ v. (v, 2)) reg 0 1 s (λ v h. h) q)
      | inr one' ↦
          rw (some', one')
            (Yields-bind Q (λ w. w < 2 ^ 32) (λ (r : ℕ × ℕ). r.0 < 2 ^ 64) (cell fdt reg 0)
              (λ w. pure (w, 1)) s (cell-Yields reg 0 s q) λ w s1 h q1. (omega arith, q1))
    ]
  ]

  read_size-Yields :
      (size_cells i : ℕ) (reg : Option (List ℕ)) (s : S)
      → Q s
      → Yields Q (λ v. v < 2 ^ 64) (read_size fdt size_cells i reg s)
  unfolding read_size
  read_size-Yields size_cells i reg s q = elim (Bool-cases (size_cells == 0)) [
    | inl none' ↦ rw none' (omega arith, q)
    | inr some' ↦ elim (Bool-cases (size_cells == 2)) [
      | inl two ↦
          rw (some', two)
            (joined-Yields (λ v. v < 2 ^ 64) (λ v. v) reg (0 + i) (1 + i) s (λ v h. h) q)
      | inr one' ↦
          rw (some', one')
            (Yields-mono Q (λ w. w < 2 ^ 32) (λ v. v < 2 ^ 64) (cell fdt reg (0 + i) s)
              (λ w h. omega arith) (cell-Yields reg (0 + i) s q))
    ]
  ]

  checked-Yields :
      (z : ℤ) (k : ℕ → Exec S RegisterResult) (s : S)
      → Q s
      → ((n : ℕ) (s' : S) → Q s' → Yields Q IsTypedRegister (k n s'))
      → Yields Q IsTypedRegister (checked fdt z k s)
  unfolding checked
  checked-Yields (pos n) k s q h = h n s q
  checked-Yields (negsuc n) k s q h = (tt, q)

  pub parse_node_register-Yields :
      (node : ℕ) (s : S) → Q s → Yields Q IsTypedRegister (parse_node_register fdt node s)
  unfolding parse_node_register
  parse_node_register-Yields node s q =
      let reg = fdt.getprop node (codes "reg") in
      checked-Yields (fdt.parent_offset node) _ s q λ parent s1 q1.
        checked-Yields (fdt.address_cells parent) _ s1 q1 λ addr_cells s2 q2.
          checked-Yields (fdt.size_cells parent) _ s2 q2 λ size_cells s3 q3.
            Yields-bind Q (λ (r : ℕ × ℕ). r.0 < 2 ^ 64) IsTypedRegister
              (read_addr fdt addr_cells reg) _ s3 (read_addr-Yields addr_cells reg s3 q3)
              λ r s4 h q4.
                Yields-bind Q (λ v. v < 2 ^ 64) IsTypedRegister (read_size fdt size_cells r.1 reg) _
                  s4 (read_size-Yields size_cells r.1 reg s4 q4) λ size s5 h5 q5. ((h, h5), q5)
