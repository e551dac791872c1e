-- ===== src/Tests/Tree.antt =====
-- The device tree parser on a small tree.
use quakernel.Base.{
  ℕ, ◌+◌, ◌*◌, ◌/◌, ◌%◌, ◌^◌, ◌≡◌, ◌≢◌, ◌↔◌, ◌⊎◌, refl, arith, inr, Bool, true, false, ◌&&◌, Option,
  none, some, List, [], ◌∷◌, ◌++◌, ◌==◌, leb, if◌then◌else◌,
}
use quakernel.Base.Int.{ℤ, pos, negsuc}
use quakernel.Base.Exec.{returned}
use quakernel.CString.{codes, is_same}
use quakernel.CString.Standard
use quakernel.CString.Standard.{standard}
use quakernel.Arch.Interrupts.{inc_clint, get_int_ctrl_type_from_dtb_compat}
use quakernel.Arch.Interrupts.Laws
use quakernel.Device.Uart.{get_uart_std_from_dtb_compat}
use quakernel.Device.Uart.Compat
use quakernel.Device.Dtb.{is_controller, is_serial}
use quakernel.Device.Dtb.Names.{first_name_decides}
use quakernel.Device.Dtb.{
  Fdt, DtbState, parsed, parse_node_register, parse_dtb, check_ok_fdt_node_status,
}
use quakernel.Device.Dtb.Register.{
  SwapsBytes, encode, encode_cell, parse_node_register-encode, parse_node_register-many_cells,
}
use quakernel.Device.Dtb.Typed.Register.{ReturnsWord}
use quakernel.Device.Dtb.Loop.{GoesForward, parse_dtb-ends}
use quakernel.Device.Dtb.Check.{check_ok_fdt_node_status_iff}
use quakernel.Device.Dtb.Node.{IsControllerNode}

unfoldable pub same_text : List ℕ → List ℕ → Bool
same_text [] [] = true
same_text (x ∷ a) (y ∷ b) = x == y && same_text a b
same_text _ _ = false

-- The first entry of that name.
unfoldable pub find : List ℕ → List (List ℕ × List ℕ) → Option (List ℕ)
find name [] = none
find name ((n, value) ∷ rest) = if same_text n name then some value else find name rest

abbrev pub plic_props : List (List ℕ × List ℕ)
plic_props =
    (codes "compatible", codes "riscv,plic0" ++ 0 ∷ [])
    ∷ (codes "interrupt-controller", [])
    ∷ (codes "reg", encode 2 0x0c00_0000 (encode 2 0x60_0000 []))
    ∷ (codes "phandle", encode_cell 3 [])
    ∷ []

abbrev pub clint_props : List (List ℕ × List ℕ)
clint_props =
    (codes "compatible", codes "riscv,clint0" ++ 0 ∷ [])
    ∷ (codes "interrupt-controller", [])
    ∷ (codes "reg", encode 2 0x0200_0000 (encode 2 0x1_0000 []))
    ∷ []

abbrev pub uart_props : List (List ℕ × List ℕ)
uart_props =
    (codes "compatible", codes "ns16550a" ++ 0 ∷ [])
    ∷ (codes "status", codes "okay" ++ 0 ∷ [])
    ∷ (codes "reg", encode 2 0x1000_0000 (encode 2 0x100 []))
    ∷ (codes "reg-shift", encode_cell 2 [])
    ∷ (codes "reg-io-width", encode_cell 4 [])
    ∷ (codes "phandle", encode_cell 5 [])
    ∷ []

abbrev pub off_props : List (List ℕ × List ℕ)
off_props =
    (codes "compatible", codes "ns16550a" ++ 0 ∷ [])
    ∷ (codes "status", codes "disabled" ++ 0 ∷ [])
    ∷ []

unfoldable pub props : ℕ → List (List ℕ × List ℕ)
props node =
    if node == 8
    then plic_props
    else if node == 16
    then clint_props
    else if node == 24
    then uart_props
    else if node == 32
    then off_props
    else []

pub swap : ℕ → ℕ
swap w =
    w % 2 ^ 8 * 2 ^ 24
    + w / 2 ^ 8 % 2 ^ 8 * 2 ^ 16
    + w / 2 ^ 16 % 2 ^ 8 * 2 ^ 8
    + w / 2 ^ 24 % 2 ^ 8

unfoldable pub next : ℕ → ℤ
next node = if leb node 24 then pos (node + 8) else negsuc 0

abbrev pub board : Fdt
board = record {
  totalsize = 40;
  check_full = λ n. pos 0;
  getprop = λ node name. find name (props node);
  parent_offset = λ node. pos 0;
  address_cells = λ node. pos 2;
  size_cells = λ node. pos 2;
  next_node = next;
  fdt32_to_cpu = swap;
}

pub board-SwapsBytes : SwapsBytes board
unfolding swap
board-SwapsBytes b0 b1 b2 b3 h0 h1 h2 h3 = omega arith

pub board-GoesForward : GoesForward board
unfolding next
board-GoesForward n m e = ground arith

parse_node_register-encode_example :
    parse_node_register board {S = DtbState} 8 [] ≡ returned (parsed 0x0c00_0000 0x60_0000) []
unfolding find props same_text
parse_node_register-encode_example =
    parse_node_register-encode board board-SwapsBytes 8 0 2 2 0x0c00_0000 0x60_0000 [] []
      (inr (inr refl)) (inr (inr refl)) (omega arith) (omega arith) refl refl refl refl

-- A register of a PCI bus, in the space of 32-bit addresses, at 0x4000_0000 and of 0x1000 bytes.
abbrev pci : Fdt
pci = record board {
  getprop = λ node name. some (encode_cell 0x0200_0000 (encode 2 0x4000_0000 (encode 2 0x1000 [])));
  address_cells = λ node. pos 3;
}

parse_node_register-many_cells_example :
    parse_node_register pci {S = DtbState} 8 [] ≡ returned (parsed 0x0200_0000 0x4000_0000) []
parse_node_register-many_cells_example =
    parse_node_register-many_cells pci board-SwapsBytes 8 0 3 2 0x0200_0000 0x4000_0000
      (encode 2 0x1000 []) [] (omega arith) (inr (inr refl)) (omega arith) (omega arith) refl refl
      refl refl

pub board-ReturnsWord : ReturnsWord board
unfolding swap
board-ReturnsWord w = omega arith

-- The rounds at the four nodes and at the root, and the end of the walk.
parse_dtb-ends_example : parse_dtb board standard 40 [] ≢ returned false []
parse_dtb-ends_example = parse_dtb-ends board standard [] [] board-GoesForward (omega arith)

pub clint_node : IsControllerNode board standard 16 [] inc_clint
unfolding find props same_text get_int_ctrl_type_from_dtb_compat is_same Standard.strncmp
clint_node = (codes "riscv,clint0" ++ 0 ∷ [], refl, refl, refl, refl)

check_ok_fdt_node_status_iff_example :
    (check_ok_fdt_node_status board standard 32 ≡ true)
    ↔ ((codes "disabled" ≡ codes "okay") ⊎ (codes "disabled" ≡ codes "ok"))
unfolding find props same_text
check_ok_fdt_node_status_iff_example =
    check_ok_fdt_node_status_iff board standard 32 (codes "disabled") [] (omega arith) refl

first_name_decides_example :
    Laws.Named
      (codes "riscv,plic0")
      (get_int_ctrl_type_from_dtb_compat standard (codes "riscv,plic0" ++ 0 ∷ codes "ns16550a"))
    × Compat.Named
        (codes "riscv,plic0")
        (get_uart_std_from_dtb_compat standard (codes "riscv,plic0" ++ 0 ∷ codes "ns16550a"))
    × ((is_controller (
            get_int_ctrl_type_from_dtb_compat standard
              (codes "riscv,plic0" ++ 0 ∷ codes "ns16550a"))
          && is_serial
              (get_uart_std_from_dtb_compat standard (codes "riscv,plic0" ++ 0 ∷ codes "ns16550a")))
        ≡ false)
first_name_decides_example =
    first_name_decides standard (codes "riscv,plic0") (codes "ns16550a") (omega arith)
