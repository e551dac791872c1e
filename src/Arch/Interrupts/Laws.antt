-- ===== src/Arch/Interrupts/Laws.antt =====
-- Which names the kernel knows.
use quakernel.Base.{
  ℕ, ◌≡◌, Bool, true, false, ◌↔◌, arith, List, [], ◌∷◌, ◌++◌, Bool-cases, inl, inr,
}
use quakernel.CString.{StringLib, IsText, is_same, is_same_iff}
use quakernel.Arch.Interrupts.{
  InterruptControllerType, inc_invalid, inc_plic, inc_clint, inc_cpu_inc, inc_clic, inc_gpio,
  plic_compat, clint_compat, cpu_intc_compat, gpio_compat, get_int_ctrl_type_from_dtb_compat,
}

-- The name of a controller's type in the device tree.
abbrev pub Named : List ℕ → InterruptControllerType → Type 0
Named name inc_plic = name ≡ plic_compat
Named name inc_clint = name ≡ clint_compat
Named name inc_cpu_inc = name ≡ cpu_intc_compat
Named name inc_gpio = name ≡ gpio_compat
Named name inc_clic = ⊥
Named name inc_invalid =
    (¬ (name ≡ plic_compat))
    × (¬ (name ≡ clint_compat))
    × (¬ (name ≡ cpu_intc_compat))
    × (¬ (name ≡ gpio_compat))

module _ (lib : StringLib) (name after : List ℕ) (text : IsText name) where
  decided :
      (b : List ℕ) → IsText b → (is_same lib (name ++ 0 ∷ after) (b ++ 0 ∷ []) ≡ true) ↔ (name ≡ b)
  decided b = is_same_iff lib name b after text

  is : List ℕ → Bool
  is b = is_same lib (name ++ 0 ∷ after) (b ++ 0 ∷ [])

  differs : (b : List ℕ) → IsText b → is b ≡ false → ¬ (name ≡ b)
  unfolding is
  differs b t e same = let same' = (decided b t).1 same in cc

  -- The type that is found is the one whose name stands first in the property, and `INC_INVALID`
  -- exactly if it is none of the four names; `INC_CLIC` is never found.
  pub get_int_ctrl_type_from_dtb_compat-Named :
      Named name (get_int_ctrl_type_from_dtb_compat lib (name ++ 0 ∷ after))
  unfolding get_int_ctrl_type_from_dtb_compat is
  get_int_ctrl_type_from_dtb_compat-Named = elim (Bool-cases (is plic_compat)) [
    | inl a ↦ rw a ((decided plic_compat (omega arith)).0 a)
    | inr a ↦ elim (Bool-cases (is clint_compat)) [
      | inl b ↦ rw (a, b) ((decided clint_compat (omega arith)).0 b)
      | inr b ↦ elim (Bool-cases (is cpu_intc_compat)) [
        | inl c ↦ rw (a, b, c) ((decided cpu_intc_compat (omega arith)).0 c)
        | inr c ↦ elim (Bool-cases (is gpio_compat)) [
          | inl d ↦ rw (a, b, c, d) ((decided gpio_compat (omega arith)).0 d)
          | inr d ↦
              rw (a, b, c, d)
                (
                  differs plic_compat (omega arith) a,
                  differs clint_compat (omega arith) b,
                  differs cpu_intc_compat (omega arith) c,
                  differs gpio_compat (omega arith) d,
                )
        ]
      ]
    ]
  ]
