-- ===== src/Device/Dtb/Walk.antt =====
-- What the whole walk of `ParseDtb` (kernel/src/device/dtb_parse.c) finds: the devices that the nodes
-- describe, in the order of the blob.
pub mod Breaks
use mathlib.Core.List.{reverse, reverse_aux}
use quakernel.Base.{
  ℕ, zero, suc, ◌+◌, ◌*◌, ◌^◌, ◌≤◌, ◌<◌, ◌≡◌, refl, sym, ◌∙◌, ap, arith, true, false, ◌&&◌, Option,
  none, some, List, [], ◌∷◌, u8, u32,
}
use quakernel.Base.Int.{ℤ, pos, negsuc}
use quakernel.Base.Exec.{returned, ◌>>=◌}
use quakernel.CString.{StringLib, codes}
use quakernel.Arch.Interrupts.{InterruptControllerType, get_int_ctrl_type_from_dtb_compat}
use quakernel.Device.Uart.{std_16550A, std_invalid, get_uart_std_from_dtb_compat}
use quakernel.Device.Dtb.{
  Fdt, Found, controller, serial, DtbState, parsed, parse_node_register, is_controller, is_some,
  check_ok_fdt_node_status, visit_compatible, visit_node, visit_from, parse_dtb,
}
use quakernel.Device.Dtb.Register.{
  SwapsBytes, IsCellCount, encode, encode_cell, parse_node_register-encode,
}
use quakernel.Device.Dtb.Node.{
  IsControllerNode, IsSerialNode, visit_node-controller_found, visit_node-serial_found,
  visit_node-disabled,
}
use quakernel.Device.Dtb.Loop.{GoesForward}

-- A device in front of others.
abbrev pub and_then : Option Found → List Found → List Found
and_then none ds = ds
and_then (some d) ds = d ∷ ds

pub reverse_aux-and_then :
    (d : Option Found) (ds s : List Found)
    → reverse_aux (and_then d ds) s ≡ reverse_aux ds (and_then d s)
reverse_aux-and_then none ds s = refl
reverse_aux-and_then (some d) ds s = refl

module _ (fdt : Fdt) where
  -- The node's register is at this address and of this size.
  pub record HasRegister (node addr size : ℕ) : Type 0 where
    pub parent : ℕ
    pub addr_cells : ℕ
    pub size_cells : ℕ
    pub rest : List ℕ
    pub addr_count : IsCellCount addr_cells
    pub size_count : IsCellCount size_cells
    pub addr_fits : addr < 2 ^ (32 * addr_cells)
    pub size_fits : size < 2 ^ (32 * size_cells)
    pub under : fdt.parent_offset node ≡ pos parent
    pub counts_addr : fdt.address_cells parent ≡ pos addr_cells
    pub counts_size : fdt.size_cells parent ≡ pos size_cells
    pub present :
        fdt.getprop node (codes "reg") ≡ some (encode addr_cells addr (encode size_cells size rest))

  -- The property is a cell of this value.
  abbrev pub HasCell : ℕ → List ℕ → ℕ → Type 0
  HasCell node name v =
      (v < 2 ^ 32) × (rest : List ℕ) × (fdt.getprop node name ≡ some (encode_cell v rest))

module _ (fdt : Fdt) (lib : StringLib) where
  -- What a node describes, as the devicetree specification has it: a device, or nothing that concerns
  -- the kernel.
  pub data Describes (node : ℕ) : Option Found → Type 0 where
    no_names : fdt.getprop node (codes "compatible") ≡ none → Describes node none
    unknown :
        (names : List ℕ)
        → fdt.getprop node (codes "compatible") ≡ some names
        → (is_controller (get_int_ctrl_type_from_dtb_compat lib names)
            && is_some (fdt.getprop node (codes "interrupt-controller")))
          ≡ false
        → get_uart_std_from_dtb_compat lib names ≡ std_invalid
        → Describes node none
    disabled :
        IsSerialNode fdt lib node []
        → check_ok_fdt_node_status fdt lib node ≡ false
        → Describes node none
    interrupts :
        (kind : InterruptControllerType) (addr size phandle : ℕ)
        → IsControllerNode fdt lib node [] kind
        → HasRegister fdt node addr size
        → HasCell fdt node (codes "phandle") phandle
        → Describes node (
            some (
              controller
                (record { base_addr = addr; reg_size = size; phandle = phandle; kind = kind })))
    port :
        (addr size shift width phandle : ℕ)
        → IsSerialNode fdt lib node []
        → check_ok_fdt_node_status fdt lib node ≡ true
        → HasRegister fdt node addr size
        → HasCell fdt node (codes "reg-shift") shift
        → HasCell fdt node (codes "reg-io-width") width
        → HasCell fdt node (codes "phandle") phandle
        → Describes node (
            some (
              serial (record {
                base_addr = addr;
                size = u32 size;
                phandle = phandle;
                std = std_16550A;
                reg_shift = u8 shift;
                reg_io_width_in_bytes = u8 width;
              })))

  -- The nodes from an offset on, as `fdt_next_node` gives them, describe these devices in this order.
  pub data Describe : ℤ → List Found → Type 0 where
    done : (code : ℕ) → Describe (negsuc code) []
    next :
        (node : ℕ) (d : Option Found) (ds out : List Found)
        → Describes node d
        → Describe (fdt.next_node node) ds
        → out ≡ and_then d ds
        → Describe (pos node) out

  module _ (swaps : SwapsBytes fdt) where
    pub HasRegister-parsed :
        (node addr size : ℕ) (s : DtbState)
        → HasRegister fdt node addr size
        → parse_node_register fdt node s ≡ returned (parsed addr size) s
    HasRegister-parsed node addr size s r =
        parse_node_register-encode fdt swaps node r.parent r.addr_cells r.size_cells addr size
          r.rest s r.addr_count r.size_count r.addr_fits r.size_fits r.under r.counts_addr
          r.counts_size r.present

    pub visit_node-Describes :
        (node : ℕ) (d : Option Found) (s : DtbState)
        → Describes node d
        → visit_node fdt lib node s ≡ returned tt (and_then d s)
    unfolding visit_node visit_compatible
    visit_node-Describes node d s (no_names e) = rw (e, visit_node)
    visit_node-Describes node d s (unknown names e other none') =
        rw (e, visit_node, other, none') refl
    visit_node-Describes node d s (disabled is off) = visit_node-disabled fdt lib node s is off
    visit_node-Describes node d s (interrupts kind addr size phandle is reg (fits, rest, e)) =
        visit_node-controller_found fdt lib node s kind is addr size phandle rest swaps
          (HasRegister-parsed node addr size s reg) fits e
    visit_node-Describes node d s
          (port addr size shift width phandle is on reg (f0, r0, e0) (f1, r1, e1) (f2, r2, e2)) =
        visit_node-serial_found fdt lib node s is addr size shift width phandle r0 r1 r2 swaps on
          (HasRegister-parsed node addr size s reg) (f0, f1, f2) e0 e1 e2

    visit_from-Describe :
        {z : ℤ} {found : List Found} (w : Describe z found) (fuel : ℕ) (s : DtbState)
        → GoesForward fdt
        → ((m : ℕ) → z ≡ pos m → (m < fdt.totalsize) × (fdt.totalsize ≤ m + fuel))
        → visit_from fdt lib fuel z s ≡ returned true (reverse_aux found s)
    unfolding visit_from
    visit_from-Describe (done code) zero s g h = refl
    visit_from-Describe (done code) (suc fuel) s g h = refl
    visit_from-Describe (next node d ds out here rest e) zero s g h =
        absurd (omega (arith, h node refl))
    visit_from-Describe (next node d ds out here rest e) (suc fuel) s g h =
        rw (visit_node-Describes node d s here, ◌>>=◌)
          (visit_from-Describe rest fuel (and_then d s) g
              (λ m at. (omega (arith, g node m at), omega (arith, g node m at, h node refl)))
            ∙ ap (returned true) (sym (ap (λ o. reverse_aux o s) e ∙ reverse_aux-and_then d ds s)))

  -- If `fdt32_to_cpu` swaps the bytes, the blob is not empty, and `fdt_next_node` goes forward
  -- through it, and if every node describes a device or nothing that concerns the kernel, the walk
  -- comes to its end, with as much fuel as the blob has bytes, and has found the devices in the order
  -- of their nodes, the last one first.
  pub parse_dtb-Describe :
      (found : List Found)
      → SwapsBytes fdt
      → GoesForward fdt
      → 0 < fdt.totalsize
      → Describe (pos 0) found
      → parse_dtb fdt lib fdt.totalsize [] ≡ returned true (reverse found)
  unfolding parse_dtb
  parse_dtb-Describe found swaps g h w =
      visit_from-Describe swaps w fdt.totalsize [] g (λ m at. let z : 0 ≡ m = cc in omega arith)
