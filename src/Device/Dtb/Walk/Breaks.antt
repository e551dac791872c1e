-- ===== src/Device/Dtb/Walk/Breaks.antt =====
-- A walk of `ParseDtb` (kernel/src/device/dtb_parse.c) that does not come to its end: some node has no
-- register that can be parsed, or lacks a property that the code reads without a check.
use mathlib.Core.List.{reverse, reverse_aux}
use quakernel.Base.{
  ◌⊎◌, ℕ, zero, suc, ◌+◌, ◌≤◌, ◌<◌, ◌≡◌, refl, sym, ◌∙◌, ap, arith, true, Option, none, List, [],
}
use quakernel.Base.Int.{ℤ, pos, negsuc}
use quakernel.Base.Exec.{Exec, Outcome, returned, halted, undefined, ◌>>=◌}
use quakernel.CString.{StringLib, codes}
use quakernel.Arch.Interrupts.{InterruptControllerType}
use quakernel.Device.Dtb.{
  Fdt, Found, DtbState, cell, read_addr, read_size, checked, parse_node_register, require_register,
  visit_controller, visit_serial, check_ok_fdt_node_status, visit_node, visit_from, parse_dtb,
}
use quakernel.Device.Dtb.Register.{SwapsBytes}
use quakernel.Device.Dtb.Node.{
  IsControllerNode, IsSerialNode, visit_node-visit_controller, visit_node-visit_serial,
  visit_node-controller_without_handle, visit_node-serial_incomplete,
}
use quakernel.Device.Dtb.Loop.{GoesForward}
use quakernel.Device.Dtb.Walk.{
  and_then, reverse_aux-and_then, HasRegister, HasRegister-parsed, Describes, visit_node-Describes,
}

-- How a node ends the walk: the machine is stopped, or the code reads through a null pointer.
pub data Break : Type 0 where
  stops : Break
  reads_null : Break

-- The outcome, with what was found before.
unfoldable pub broken : {A : Type 0} → Break → DtbState → Outcome DtbState A
broken stops s = halted s
broken reads_null s = undefined

broken-then :
    {A B : Type 0} (b : Break) (s : DtbState) (k : A → Exec DtbState B)
    → (elim (broken {A = A} b s) as (λ x. Outcome DtbState B) [
      | returned a s' ↦ k a s'
      | halted s' ↦ halted s'
      | undefined ↦ undefined
    ])
      ≡ broken b s
unfolding broken
broken-then stops s k = refl
broken-then reads_null s k = refl

module _ (fdt : Fdt) where
  -- The register of a node cannot be parsed: libfdt finds no parent or no valid number of cells, or
  -- there is no `reg` property although it should have at least one cell.
  pub data NoRegister (node : ℕ) : Break → Type 0 where
    no_parent : (code : ℕ) → fdt.parent_offset node ≡ negsuc code → NoRegister node stops
    no_address_cells :
        (parent code : ℕ)
        → fdt.parent_offset node ≡ pos parent
        → fdt.address_cells parent ≡ negsuc code
        → NoRegister node stops
    no_size_cells :
        (parent addr_cells code : ℕ)
        → fdt.parent_offset node ≡ pos parent
        → fdt.address_cells parent ≡ pos addr_cells
        → fdt.size_cells parent ≡ negsuc code
        → NoRegister node stops
    no_reg :
        (parent addr_cells size_cells : ℕ)
        → fdt.parent_offset node ≡ pos parent
        → fdt.address_cells parent ≡ pos addr_cells
        → fdt.size_cells parent ≡ pos size_cells
        → 0 < addr_cells + size_cells
        → fdt.getprop node (codes "reg") ≡ none
        → NoRegister node reads_null

  read_addr-null :
      {S : Type 0} (addr_cells : ℕ) (s : S)
      → 0 < addr_cells
      → read_addr fdt addr_cells none s ≡ undefined
  unfolding read_addr cell
  read_addr-null addr_cells s h = ground arith

  read_addr-zero :
      {S : Type 0} (reg : Option (List ℕ)) (s : S) → read_addr fdt 0 reg s ≡ returned (0, 0) s
  unfolding read_addr
  read_addr-zero reg s = refl

  read_size-null :
      {S : Type 0} (size_cells i : ℕ) (s : S)
      → 0 < size_cells
      → read_size fdt size_cells i none s ≡ undefined
  unfolding read_size cell
  read_size-null size_cells i s h = ground arith

  module _ (lib : StringLib) where
    require-NoRegister :
        {A : Type 0} (node : ℕ) (b : Break) (s : DtbState) (k : ℕ × ℕ → Exec DtbState A)
        → NoRegister node b
        → (do
          reg ← parse_node_register fdt node
          addr_size ← require_register fdt lib reg
          k addr_size)
            s
          ≡ broken b s
    unfolding broken parse_node_register checked require_register
    require-NoRegister node b s k (no_parent code e) = rw (e, ◌>>=◌) refl
    require-NoRegister node b s k (no_address_cells parent code e0 e1) = rw (e0, e1, ◌>>=◌) refl
    require-NoRegister node b s k (no_size_cells parent addr_cells code e0 e1 e2) =
        rw (e0, e1, e2, ◌>>=◌) refl
    require-NoRegister node b s k (no_reg parent zero size_cells e0 e1 e2 h missing) =
        rw
          (
            e0,
            e1,
            e2,
            read_addr-zero (fdt.getprop node (codes "reg")) s,
            missing,
            ◌>>=◌,
            read_size-null size_cells 0 s (omega arith),
          )
          refl
    require-NoRegister node b s k (no_reg parent (suc n) size_cells e0 e1 e2 h missing) =
        rw (e0, e1, e2, missing, ◌>>=◌, read_addr-null (suc n) s (omega arith)) refl

    -- What a node must look like for the walk to break off there.
    pub data Breaks (node : ℕ) : Break → Type 0 where
      controller_register :
          {b : Break} (kind : InterruptControllerType)
          → IsControllerNode fdt lib node [] kind
          → NoRegister node b
          → Breaks node b
      port_register :
          {b : Break}
          → IsSerialNode fdt lib node []
          → check_ok_fdt_node_status fdt lib node ≡ true
          → NoRegister node b
          → Breaks node b
      controller_without_handle :
          (kind : InterruptControllerType) (addr size : ℕ)
          → IsControllerNode fdt lib node [] kind
          → HasRegister fdt node addr size
          → fdt.getprop node (codes "phandle") ≡ none
          → Breaks node reads_null
      port_incomplete :
          (addr size : ℕ)
          → IsSerialNode fdt lib node []
          → check_ok_fdt_node_status fdt lib node ≡ true
          → HasRegister fdt node addr size
          → (fdt.getprop node (codes "reg-shift") ≡ none)
            ⊎ ((fdt.getprop node (codes "reg-io-width") ≡ none)
                ⊎ (fdt.getprop node (codes "phandle") ≡ none))
          → Breaks node reads_null

    -- From an offset the walk comes to a node, past nodes that describe these devices.
    pub data Reaches : ℤ → List Found → ℕ → Type 0 where
      here : (node : ℕ) → Reaches (pos node) [] node
      past :
          (node : ℕ) (d : Option Found) (ds out : List Found) {last : ℕ}
          → Describes fdt lib node d
          → Reaches (fdt.next_node node) ds last
          → out ≡ and_then d ds
          → Reaches (pos node) out last

    module _ (swaps : SwapsBytes fdt) where
      visit_node-Breaks :
          (node : ℕ) (b : Break) (s : DtbState)
          → Breaks node b
          → visit_node fdt lib node s ≡ broken b s
      unfolding visit_controller visit_serial broken
      visit_node-Breaks node b s (controller_register kind is none') =
          visit_node-visit_controller fdt lib node s kind is ∙ require-NoRegister node b s _ none'
      visit_node-Breaks node b s (port_register is on none') =
          visit_node-visit_serial fdt lib node s is on ∙ require-NoRegister node b s _ none'
      visit_node-Breaks node b s (controller_without_handle kind addr size is reg missing) =
          visit_node-controller_without_handle fdt lib node s kind is addr size
            (HasRegister-parsed fdt lib swaps node addr size s reg) missing
      visit_node-Breaks node b s (port_incomplete addr size is on reg missing) =
          visit_node-serial_incomplete fdt lib node s is addr size on
            (HasRegister-parsed fdt lib swaps node addr size s reg) missing

      visit_from-Breaks :
          {z : ℤ} {found : List Found} {last : ℕ} (w : Reaches z found last) (b : Break) (fuel : ℕ)
          (s : DtbState)
          → GoesForward fdt
          → Breaks last b
          → ((m : ℕ) → z ≡ pos m → (m < fdt.totalsize) × (fdt.totalsize ≤ m + fuel))
          → visit_from fdt lib fuel z s ≡ broken b (reverse_aux found s)
      unfolding visit_from
      visit_from-Breaks (here node) b zero s g bad h = absurd (omega (arith, h node refl))
      visit_from-Breaks (here node) b (suc fuel) s g bad h =
          rw (visit_node-Breaks node b s bad, ◌>>=◌) (broken-then b s _)
      visit_from-Breaks (past node d ds out there rest e) b zero s g bad h =
          absurd (omega (arith, h node refl))
      visit_from-Breaks (past node d ds out there rest e) b (suc fuel) s g bad h =
          rw (visit_node-Describes fdt lib swaps node d s there, ◌>>=◌)
            (visit_from-Breaks rest b fuel (and_then d s) g bad
                (λ m at. (omega (arith, g node m at), omega (arith, g node m at, h node refl)))
              ∙ ap (broken b) (sym (ap (λ o. reverse_aux o s) e ∙ reverse_aux-and_then d ds s)))

    -- If `fdt32_to_cpu` swaps the bytes, the blob is not empty, and `fdt_next_node` goes forward
    -- through it, and if the walk comes to a node whose register cannot be parsed or that lacks a
    -- property, past nodes that describe devices or nothing that concerns the kernel, it ends there:
    -- where libfdt reports an error for the parent or the numbers of cells, the machine stops with
    -- what was found before; where `reg`, the handle, or the shift or the width of an enabled port is
    -- missing, the code reads through a null pointer.
    pub parse_dtb-Breaks :
        (found : List Found) (last : ℕ) (b : Break)
        → SwapsBytes fdt
        → GoesForward fdt
        → 0 < fdt.totalsize
        → Reaches (pos 0) found last
        → Breaks last b
        → parse_dtb fdt lib fdt.totalsize [] ≡ broken b (reverse found)
    unfolding parse_dtb
    parse_dtb-Breaks found last b swaps g h w bad =
        visit_from-Breaks swaps w b fdt.totalsize [] g bad
          (λ m at. let z : 0 ≡ m = cc in omega arith)
