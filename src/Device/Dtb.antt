-- ===== src/Device/Dtb.antt =====
-- The device tree parser of kernel/src/device/dtb_parse.c, over the functions of libfdt that it calls.
pub mod Register
pub mod Check
pub mod Names
mod Cells
pub mod Node
pub mod Loop
pub mod Walk
pub mod Typed
use quakernel.Base.{
  ℕ, zero, suc, ◌+◌, ◌*◌, ◌^◌, Bool, true, false, ◌&&◌, ◌||◌, Option, none, some, List, [], ◌∷◌,
  ◌++◌, ◌==◌, if◌then◌else◌, get_elem?, bit_or, u8, u32, u64, ◌<<<◌,
}
use quakernel.Base.Int.{ℤ, pos, negsuc, is_negative}
use quakernel.Base.Exec.{Exec, Outcome, halted, fault, from_option, pure, modify, when, ◌>>=◌, ◌>>◌}
use quakernel.CString.{StringLib, codes, is_same}
use quakernel.Arch.Interrupts.{
  InterruptControllerType, InterruptController, inc_invalid, get_int_ctrl_type_from_dtb_compat,
}
use quakernel.Device.Uart.{
  UartStandard, UartPort, std_invalid, std_16550A, get_uart_std_from_dtb_compat,
}

-- The functions of libfdt on one blob. A pointer to a property is given by the bytes from it to the end
-- of the blob, and the null pointer by `none`.
pub record Fdt : Type 0 where
  pub totalsize : ℕ
  pub check_full : ℕ → ℤ
  pub getprop : ℕ → List ℕ → Option (List ℕ)
  pub parent_offset : ℕ → ℤ
  pub address_cells : ℕ → ℤ
  pub size_cells : ℕ → ℤ
  pub next_node : ℕ → ℤ
  pub fdt32_to_cpu : ℕ → ℕ

-- `( (const uint32_t*) p )[i]` on a little-endian machine; `none` is a read behind the blob.
abbrev pub load32 : List ℕ → Option ℕ
load32 (b0 ∷ b1 ∷ b2 ∷ b3 ∷ rest) = some (b0 + b1 * 2 ^ 8 + b2 * 2 ^ 16 + b3 * 2 ^ 24)
load32 _ = none

abbrev pub word_at : List ℕ → ℕ → Option ℕ
word_at bytes zero = load32 bytes
word_at (b0 ∷ b1 ∷ b2 ∷ b3 ∷ rest) (suc i) = word_at rest i
word_at _ (suc i) = none

-- What `ParseNodeRegister` returns: a negative code, or 0 with `*addr` and `*size` written.
pub data RegisterResult : Type 0 where
  failed : ℤ → RegisterResult
  parsed : (addr size : ℕ) → RegisterResult

-- Comparisons with the invalid enumerators, and with the null pointer.
abbrev pub is_controller : InterruptControllerType → Bool
is_controller inc_invalid = false
is_controller _ = true

abbrev pub is_serial : UartStandard → Bool
is_serial std_invalid = false
is_serial std_16550A = true

abbrev pub is_some {ℓ} : {A : Type ℓ} → Option A → Bool
is_some none = false
is_some (some a) = true

-- What the parser builds. The source builds each of these in a variable of the loop's body, and drops
-- it at the end of the round; here they are kept, the newest first.
pub data Found : Type 0 where
  controller : InterruptController → Found
  serial : UartPort → Found

abbrev pub DtbState : Type 0
DtbState = List Found

module _ (fdt : Fdt) where
  open fdt use {
    totalsize, check_full, getprop, parent_offset, address_cells, size_cells, next_node,
    fdt32_to_cpu,
  }

  -- `fdt32_to_cpu( p[i] )`, where the pointer may be null.
  pub cell : {S : Type 0} → Option (List ℕ) → ℕ → Exec S ℕ
  cell p i = do
    bytes ← from_option p
    word ← from_option (word_at bytes i)
    pure (fdt32_to_cpu word)

  -- The address and the index of the first cell of the size.
  pub read_addr : {S : Type 0} → ℕ → Option (List ℕ) → Exec S (ℕ × ℕ)
  read_addr addr_cells reg =
      if addr_cells == 0
      then pure (0, 0)
      else if addr_cells == 2
      then (do
        base_addr ← cell reg 0
        low ← cell reg 1
        pure (bit_or (u64 (base_addr <<< 32)) low, 2))
      else (do base_addr ← cell reg 0; pure (base_addr, 1))

  pub read_size : {S : Type 0} → ℕ → ℕ → Option (List ℕ) → Exec S ℕ
  read_size size_cells' size_field_offset reg =
      if size_cells' == 0
      then pure 0
      else if size_cells' == 2
      then (do
        sz ← cell reg (0 + size_field_offset)
        low ← cell reg (1 + size_field_offset)
        pure (bit_or (u64 (sz <<< 32)) low))
      else cell reg (0 + size_field_offset)

  -- `if( result < 0 ) return result;`
  pub checked : {S : Type 0} → ℤ → (ℕ → Exec S RegisterResult) → Exec S RegisterResult
  checked (pos n) next = next n
  checked (negsuc n) next = pure (failed (negsuc n))

  -- `ParseNodeRegister`
  pub parse_node_register : {S : Type 0} → ℕ → Exec S RegisterResult
  parse_node_register node = checked (parent_offset node) λ parent.
      checked (address_cells parent) λ addr_cells. checked (size_cells parent) λ size_cells'. do
        (addr, size_field_offset) ← read_addr addr_cells (getprop node (codes "reg"))
        size ← read_size size_cells' size_field_offset (getprop node (codes "reg"))
        pure (parsed addr size)

  -- `ValidateDtb`
  pub validate_dtb : {S : Type 0} → Exec S (Unit {0})
  validate_dtb = elim (check_full (u32 totalsize)) [
    | pos n ↦ if n == 0 then pure tt else halted
    | negsuc n ↦ halted
  ]

  module _ (lib : StringLib) where
    -- `CheckOkFdtNodeStatus`
    unfoldable pub check_ok_fdt_node_status : ℕ → Bool
    check_ok_fdt_node_status node = elim (getprop node (codes "status")) [
      | none ↦ true
      | some status ↦
          is_same lib status (codes "okay" ++ 0 ∷ []) || is_same lib status (codes "ok" ++ 0 ∷ [])
    ]

    -- `if( errCode < 0 ) hcf();`
    pub require_register : RegisterResult → Exec DtbState (ℕ × ℕ)
    require_register (failed code) = halted
    require_register (parsed addr size) = pure (addr, size)

    -- The branch for an interrupt controller.
    pub visit_controller : ℕ → InterruptControllerType → Exec DtbState (Unit {0})
    visit_controller node kind = do
      reg ← parse_node_register node
      (addr, size) ← require_register reg
      phandle ← cell (getprop node (codes "phandle")) 0
      modify (
          ◌∷◌ (
            controller
              (record { base_addr = addr; reg_size = size; phandle = phandle; kind = kind })))

    -- The branch for a serial port. The two register properties are loaded before the handle is.
    pub visit_serial : ℕ → UartStandard → Exec DtbState (Unit {0})
    visit_serial node std = do
      reg ← parse_node_register node
      (addr, size) ← require_register reg
      reg_shift ← cell (getprop node (codes "reg-shift")) 0
      reg_io_width ← cell (getprop node (codes "reg-io-width")) 0
      phandle ← cell (getprop node (codes "phandle")) 0
      modify (
          ◌∷◌ (
            serial (record {
              base_addr = addr;
              size = u32 size;
              phandle = phandle;
              std = std;
              reg_shift = u8 reg_shift;
              reg_io_width_in_bytes = u8 reg_io_width;
            })))

    -- What happens to a node that has a `compatible` property.
    visit_compatible : ℕ → List ℕ → Exec DtbState (Unit {0})
    visit_compatible node compatible =
        let kind = get_int_ctrl_type_from_dtb_compat lib compatible in
        let std = get_uart_std_from_dtb_compat lib compatible in
        if is_controller kind && is_some (getprop node (codes "interrupt-controller"))
        then visit_controller node kind
        else if is_serial std
        then when (check_ok_fdt_node_status node) (visit_serial node std)
        else pure tt

    -- One round of the loop. For a node that is neither a controller nor a serial port the source
    -- loads three pointers, if its status is not bad, and does nothing with them.
    pub visit_node : ℕ → Exec DtbState (Unit {0})
    visit_node node = elim (getprop node (codes "compatible")) [
      | none ↦ pure tt
      | some compatible ↦ visit_compatible node compatible
    ]

    -- The loop of `ParseDtb` on fuel: true if it ended by its test, false if the fuel ran out.
    visit_from : ℕ → ℤ → Exec DtbState Bool
    visit_from zero node = pure (is_negative node)
    visit_from (suc fuel) (pos node) = do visit_node node; visit_from fuel (next_node node)
    visit_from (suc fuel) (negsuc code) = pure true

    -- `ParseDtb`
    pub parse_dtb : ℕ → Exec DtbState Bool
    parse_dtb fuel = visit_from fuel (pos 0)
