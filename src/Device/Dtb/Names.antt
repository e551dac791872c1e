-- ===== src/Device/Dtb/Names.antt =====
-- What the first name of a `compatible` property makes of a node (`ParseDtb` in
-- kernel/src/device/dtb_parse.c with the two functions that it calls for the name).
use quakernel.Base.{ℕ, ◌≡◌, ◌≢◌, ◌∙◌, sym, ap, arith, refl, inl, inr, List, ◌∷◌, ◌++◌, false, ◌&&◌}
use quakernel.CString.{StringLib, IsText}
use quakernel.Arch.Interrupts.{
  InterruptControllerType, inc_invalid, inc_plic, inc_clint, inc_cpu_inc, inc_clic, inc_gpio,
  get_int_ctrl_type_from_dtb_compat,
}
use quakernel.Arch.Interrupts.Laws
use quakernel.Arch.Interrupts.Laws.{get_int_ctrl_type_from_dtb_compat-Named}
use quakernel.Device.Uart.{UartStandard, std_invalid, std_16550A, get_uart_std_from_dtb_compat}
use quakernel.Device.Uart.Compat
use quakernel.Device.Uart.Compat.{get_uart_std_from_dtb_compat-Named}
use quakernel.Device.Dtb.{is_controller, is_serial}

-- The fourth letter tells the names of controllers from those of ports.
fourth : List ℕ → ℕ
fourth (a ∷ b ∷ c ∷ d ∷ rest) = d
fourth _ = 0

apart : {name xs ys : List ℕ} → name ≡ xs → name ≡ ys → fourth xs ≢ fourth ys → ⊥
apart a b differ = differ (ap fourth (sym a ∙ b))

-- No name is one of a controller and of a port.
never_both :
    (name : List ℕ) (kind : InterruptControllerType) (std : UartStandard)
    → Laws.Named name kind
    → Compat.Named name std
    → (is_controller kind && is_serial std) ≡ false
unfolding fourth
never_both name inc_invalid std a b = refl
never_both name inc_plic std_16550A a (inl b) = absurd (apart a b (omega arith))
never_both name inc_plic std_16550A a (inr b) = absurd (apart a b (omega arith))
never_both name inc_clint std_16550A a (inl b) = absurd (apart a b (omega arith))
never_both name inc_clint std_16550A a (inr b) = absurd (apart a b (omega arith))
never_both name inc_cpu_inc std_16550A a (inl b) = absurd (apart a b (omega arith))
never_both name inc_cpu_inc std_16550A a (inr b) = absurd (apart a b (omega arith))
never_both name inc_gpio std_16550A a (inl b) = absurd (apart a b (omega arith))
never_both name inc_gpio std_16550A a (inr b) = absurd (apart a b (omega arith))
never_both name inc_clic std a b = absurd a
never_both name inc_plic std_invalid a b = refl
never_both name inc_clint std_invalid a b = refl
never_both name inc_cpu_inc std_invalid a b = refl
never_both name inc_gpio std_invalid a b = refl

-- Only the first name of a `compatible` property counts, a text that ends in a 0, whatever stands
-- behind it. The controller type that is found is the one of that name, and `INC_INVALID` exactly if
-- it is none of the four names that the kernel knows; `INC_CLIC` is never found. The node is taken
-- for a 16550A exactly if the name is one of the two for it. And it is never taken for both.
pub first_name_decides :
    (lib : StringLib) (name after : List ℕ)
    → IsText name
    → let kind = get_int_ctrl_type_from_dtb_compat lib (name ++ 0 ∷ after) in
      let std = get_uart_std_from_dtb_compat lib (name ++ 0 ∷ after) in
      Laws.Named name kind × Compat.Named name std × ((is_controller kind && is_serial std) ≡ false)
first_name_decides lib name after text =
    let kind = get_int_ctrl_type_from_dtb_compat-Named lib name after text in
    let std = get_uart_std_from_dtb_compat-Named lib name after text in
    (kind, std, never_both name _ _ kind std)
