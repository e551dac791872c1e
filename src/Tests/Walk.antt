-- ===== src/Tests/Walk.antt =====
-- The walk over a small device tree in which every node is complete.
use mathlib.Core.List.{reverse}
use quakernel.Base.{
  ℕ, ◌≡◌, refl, arith, inr, true, none, some, [], ◌∷◌, ◌++◌, ◌==◌, if◌then◌else◌, u8, u32,
}
use quakernel.Base.Int.{ℤ, pos, negsuc}
use quakernel.Base.Exec.{returned}
use quakernel.CString.{codes, is_same}
use quakernel.CString.Standard
use quakernel.CString.Standard.{standard}
use quakernel.Arch.Interrupts.{inc_plic, get_int_ctrl_type_from_dtb_compat}
use quakernel.Device.Uart.{UartPort, std_16550A, get_uart_std_from_dtb_compat}
use quakernel.Device.Dtb.{Fdt, Found, controller, serial, parse_dtb, check_ok_fdt_node_status}
use quakernel.Device.Dtb.Loop.{GoesForward}
use quakernel.Device.Dtb.Walk.{HasRegister, Describes, Describe, parse_dtb-Describe}
use quakernel.Tests.Tree.{find, props, same_text, board, board-SwapsBytes}

pub next_complete : ℕ → ℤ
next_complete n =
    if n == 0 then pos 8 else if n == 8 then pos 24 else if n == 24 then pos 32 else negsuc 0

-- The board without its second interrupt controller, which has no handle.
abbrev pub complete : Fdt
complete = record board { next_node = next_complete }

pub complete-GoesForward : GoesForward complete
unfolding next_complete
complete-GoesForward n m e = ground arith

plic_register :
    (next : ℕ → ℤ) → HasRegister (record board { next_node = next }) 8 0x0c00_0000 0x60_0000
unfolding find props same_text
plic_register next = record {
  parent = 0;
  addr_cells = 2;
  size_cells = 2;
  rest = [];
  addr_count = inr (inr refl);
  size_count = inr (inr refl);
  addr_fits = omega arith;
  size_fits = omega arith;
  under = refl;
  counts_addr = refl;
  counts_size = refl;
  present = refl;
}

uart_register : HasRegister complete 24 0x1000_0000 0x100
unfolding find props same_text
uart_register = record {
  parent = 0;
  addr_cells = 2;
  size_cells = 2;
  rest = [];
  addr_count = inr (inr refl);
  size_count = inr (inr refl);
  addr_fits = omega arith;
  size_fits = omega arith;
  under = refl;
  counts_addr = refl;
  counts_size = refl;
  present = refl;
}

abbrev pub plic : Found
plic =
    controller
      (record { base_addr = 0x0c00_0000; reg_size = 0x60_0000; phandle = 3; kind = inc_plic })

abbrev pub uart_port : UartPort
uart_port = record {
  base_addr = 0x1000_0000;
  size = u32 0x100;
  phandle = 5;
  std = std_16550A;
  reg_shift = u8 2;
  reg_io_width_in_bytes = u8 4;
}

abbrev uart : Found
uart = serial uart_port

pub root_described : (next : ℕ → ℤ) → Describes (record board { next_node = next }) standard 0 none
unfolding find props same_text
root_described next = Describes.no_names refl

pub plic_described :
    (next : ℕ → ℤ) → Describes (record board { next_node = next }) standard 8 (some plic)
unfolding find props same_text get_int_ctrl_type_from_dtb_compat is_same Standard.strncmp
plic_described next =
    Describes.interrupts inc_plic 0x0c00_0000 0x60_0000 3
      (codes "riscv,plic0" ++ 0 ∷ [], refl, refl, refl, refl) (plic_register next)
      (omega arith, [], refl)

uart_described : Describes complete standard 24 (some uart)
unfolding find props same_text get_int_ctrl_type_from_dtb_compat get_uart_std_from_dtb_compat
    check_ok_fdt_node_status is_same Standard.strncmp
uart_described =
    Describes.port 0x1000_0000 0x100 2 4 5 (codes "ns16550a" ++ 0 ∷ [], refl, refl, refl) refl
      uart_register (omega arith, [], refl) (omega arith, [], refl) (omega arith, [], refl)

off_described : Describes complete standard 32 none
unfolding find props same_text get_int_ctrl_type_from_dtb_compat get_uart_std_from_dtb_compat
    check_ok_fdt_node_status is_same Standard.strncmp
off_described = Describes.disabled (codes "ns16550a" ++ 0 ∷ [], refl, refl, refl) refl

pub complete_described : Describe complete standard (pos 0) (plic ∷ uart ∷ [])
unfolding next_complete
complete_described =
    Describe.next 0 none (plic ∷ uart ∷ []) (plic ∷ uart ∷ []) (root_described next_complete)
      (Describe.next 8 (some plic) (uart ∷ []) (plic ∷ uart ∷ []) (plic_described next_complete)
        (Describe.next 24 (some uart) [] (uart ∷ []) uart_described
          (Describe.next 32 none [] [] off_described (Describe.done 0) refl) refl)
        refl)
      refl

parse_dtb-Describe_example :
    parse_dtb complete standard 40 [] ≡ returned true (reverse (plic ∷ uart ∷ []))
parse_dtb-Describe_example =
    parse_dtb-Describe complete standard (plic ∷ uart ∷ []) board-SwapsBytes complete-GoesForward
      (omega arith) complete_described
