-- ===== src/Arch/Interrupts.antt =====
-- `GetIntCtrlTypeFromDtbCompat` of kernel/src/arch/riscv64/interrupts.c, and interrupts.h.
pub mod Laws
use quakernel.Base.{ℕ, List, [], ◌∷◌, ◌++◌, if◌then◌else◌}
use quakernel.CString.{StringLib, codes, is_same}

-- `interrupt_controller_type`
pub data InterruptControllerType : Type 0 where
  inc_invalid inc_plic inc_clint inc_cpu_inc inc_clic inc_gpio : InterruptControllerType

-- `interrupt_controller`
pub record InterruptController : Type 0 where
  pub base_addr : ℕ
  pub reg_size : ℕ
  pub phandle : ℕ
  pub kind : InterruptControllerType

abbrev pub plic_compat : List ℕ
plic_compat = codes "riscv,plic0"

abbrev pub clint_compat : List ℕ
clint_compat = codes "riscv,clint0"

abbrev pub cpu_intc_compat : List ℕ
cpu_intc_compat = codes "riscv,cpu-intc"

abbrev pub gpio_compat : List ℕ
gpio_compat = codes "ky,x1-gpio"

-- `GetIntCtrlTypeFromDtbCompat`; the constants end in their 0.
unfoldable pub get_int_ctrl_type_from_dtb_compat : StringLib → List ℕ → InterruptControllerType
get_int_ctrl_type_from_dtb_compat lib dtb_compat =
    if is_same lib dtb_compat (plic_compat ++ 0 ∷ [])
    then inc_plic
    else if is_same lib dtb_compat (clint_compat ++ 0 ∷ [])
    then inc_clint
    else if is_same lib dtb_compat (cpu_intc_compat ++ 0 ∷ [])
    then inc_cpu_inc
    else if is_same lib dtb_compat (gpio_compat ++ 0 ∷ [])
    then inc_gpio
    else inc_invalid
