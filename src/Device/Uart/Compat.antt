-- ===== src/Device/Uart/Compat.antt =====
-- Which names are those of a 16550A.
use quakernel.Base.{
  ℕ, ◌≡◌, ◌⊎◌, arith, Bool, true, false, List, [], ◌∷◌, ◌++◌, Bool-cases, inl, inr,
}
use quakernel.CString.{StringLib, IsText, is_same, is_same_iff}
use quakernel.Device.Uart.{
  UartStandard, std_invalid, std_16550A, uart_16550a_compat, uart_ky_x1_compat,
  get_uart_std_from_dtb_compat,
}

abbrev pub Named : List ℕ → UartStandard → Type 0
Named name std_16550A = (name ≡ uart_16550a_compat) ⊎ (name ≡ uart_ky_x1_compat)
Named name std_invalid = (¬ (name ≡ uart_16550a_compat)) × (¬ (name ≡ uart_ky_x1_compat))

module _ (lib : StringLib) (name after : List ℕ) (text : IsText name) where
  is : List ℕ → Bool
  is b = is_same lib (name ++ 0 ∷ after) (b ++ 0 ∷ [])

  same : (b : List ℕ) → IsText b → is b ≡ true → name ≡ b
  unfolding is
  same b t = (is_same_iff lib name b after text t).0

  differs : (b : List ℕ) → IsText b → is b ≡ false → ¬ (name ≡ b)
  unfolding is
  differs b t e same = let same' = (is_same_iff lib name b after text t).1 same in cc

  -- A port is taken for a 16550A exactly if the first name in its property is one of the two that the
  -- kernel knows.
  pub get_uart_std_from_dtb_compat-Named :
      Named name (get_uart_std_from_dtb_compat lib (name ++ 0 ∷ after))
  unfolding get_uart_std_from_dtb_compat is
  get_uart_std_from_dtb_compat-Named = elim (Bool-cases (is uart_16550a_compat)) [
    | inl a ↦ rw a (inl (same uart_16550a_compat (omega arith) a))
    | inr a ↦ elim (Bool-cases (is uart_ky_x1_compat)) [
      | inl b ↦ rw (a, b) (inr (same uart_ky_x1_compat (omega arith) b))
      | inr b ↦
          rw (a, b)
            (differs uart_16550a_compat (omega arith) a, differs uart_ky_x1_compat (omega arith) b)
    ]
  ]
