-- ===== src/Tests/Breaks.antt =====
-- The walk over a device tree whose second interrupt controller has no handle.
use quakernel.Base.{◌≡◌, refl, arith, inr, none, some, [], ◌∷◌}
use quakernel.Base.Int.{pos}
use quakernel.Base.Exec.{undefined}
use quakernel.CString.Standard.{standard}
use quakernel.Arch.Interrupts.{inc_clint}
use quakernel.Device.Dtb.{parse_dtb}
use quakernel.Device.Dtb.Walk.{HasRegister}
use quakernel.Device.Dtb.Walk.Breaks.{reads_null, broken, Breaks, Reaches, parse_dtb-Breaks}
use quakernel.Tests.Tree.{
  find, next, props, same_text, board, board-SwapsBytes, board-GoesForward, clint_node,
}
use quakernel.Tests.Walk.{plic, root_described, plic_described}

clint_register : HasRegister board 16 0x0200_0000 0x1_0000
unfolding find props same_text
clint_register = record {
  parent = 0;
  addr_cells = 2;
  size_cells = 2;
  rest = [];
  addr_count = inr (inr refl);
  size_count = inr (inr refl);
  addr_fits = omega arith;
  size_fits = omega arith;
  under = refl;
  counts_addr = refl;
  counts_size = refl;
  present = refl;
}

clint-Breaks : Breaks board standard 16 reads_null
unfolding find props same_text
clint-Breaks =
    Breaks.controller_without_handle inc_clint 0x0200_0000 0x1_0000 clint_node clint_register refl

clint-Reaches : Reaches board standard (pos 0) (plic ∷ []) 16
unfolding next
clint-Reaches =
    Reaches.past 0 none (plic ∷ []) (plic ∷ []) (root_described next)
      (Reaches.past 8 (some plic) [] (plic ∷ []) (plic_described next) (Reaches.here 16) refl) refl

parse_dtb-Breaks_example : parse_dtb board standard 40 [] ≡ undefined
unfolding broken
parse_dtb-Breaks_example =
    parse_dtb-Breaks board standard (plic ∷ []) 16 reads_null board-SwapsBytes board-GoesForward
      (omega arith) clint-Reaches clint-Breaks
