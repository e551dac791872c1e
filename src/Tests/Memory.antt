-- ===== src/Tests/Memory.antt =====
-- Free blocks, the arena and alignment at concrete inputs.
use quakernel.Base.{
  ℕ, ◌%◌, Any, inl, ◌+◌, ◌-◌, ◌*◌, ◌^◌, ◌≤◌, ◌≡◌, arith, ◌⊎◌, ◌↔◌, List, [], ◌∷◌, All, length,
}
use quakernel.Memory.Align.{align_down, align_up}
use quakernel.Memory.Align.Nearest.{IsFloor, IsCeiling, align_nearest}
use quakernel.Memory.Block.{MemBlock, Contains, Covers}
use quakernel.Memory.FreeBlocks.{
  emit_free, is_irrelevant, visit_occupied, visit_all, emit_rest, visit_region,
  emit_free_aligned_mem_blocks,
}
use quakernel.Memory.FreeBlocks.AtLeast.{IsInside, IsNear}
use quakernel.Memory.FreeBlocks.AtMost.{ContainsBehind, Reaches}
use quakernel.Memory.FreeBlocks.Soundness.{
  emit_free_aligned_mem_blocks_sound, emit_free_aligned_mem_blocks_slack,
}
use quakernel.Memory.FreeBlocks.Coverage.{emit_free_aligned_mem_blocks-Covers}
use quakernel.Memory.FreeBlocks.Apart.{IsApart, emit_free_aligned_mem_blocks-IsApart}
use quakernel.Memory.FreeBlocks.Shape.{
  IsWordBlock, emit_free_aligned_mem_blocks-IsWordBlock, length-emit_free_aligned_mem_blocks,
  emit_free_aligned_mem_blocks-overlap,
}
use quakernel.Memory.Arena.Laws.Layout.{granted_sizes, granting, layout, total, run-granted_sizes}
use quakernel.Memory.Arena.Laws.Wrap.{around, run-around}
use quakernel.Memory.Arena.Laws.{AllDisjoint, Op, allocate, clear, run, start}

abbrev pub ram : MemBlock
ram = record { base_addr = 0x1000; size = 0x1000 }

abbrev pub kernel_image : MemBlock
kernel_image = record { base_addr = 0x1100; size = 0x100 }

emit_free_aligned_mem_blocks-Covers_example :
    Covers (emit_free_aligned_mem_blocks (ram ∷ []) (kernel_image ∷ []) []) 0x1108
    ↔ (Covers [] 0x1108 ⊎ (Covers (ram ∷ []) 0x1108 × (¬ Covers (kernel_image ∷ []) 0x1108)))
emit_free_aligned_mem_blocks-Covers_example =
    emit_free_aligned_mem_blocks-Covers (ram ∷ []) (kernel_image ∷ []) [] 0x1108 (omega arith)
      (omega arith) (omega arith)

emit_free_aligned_mem_blocks-IsWordBlock_example :
    All IsWordBlock (emit_free_aligned_mem_blocks (ram ∷ []) (kernel_image ∷ []) [])
emit_free_aligned_mem_blocks-IsWordBlock_example =
    emit_free_aligned_mem_blocks-IsWordBlock (ram ∷ []) (kernel_image ∷ []) [] tt

length-emit_free_aligned_mem_blocks_example :
    length (emit_free_aligned_mem_blocks (ram ∷ []) (kernel_image ∷ []) []) ≤ 0 + 1 * (1 + 1)
length-emit_free_aligned_mem_blocks_example =
    length-emit_free_aligned_mem_blocks (ram ∷ []) (kernel_image ∷ []) []

-- A region and a block that begin four bytes behind a word.
abbrev odd_ram : MemBlock
odd_ram = record { base_addr = 0x1004; size = 0x1000 }

abbrev odd_image : MemBlock
odd_image = record { base_addr = 0x1104; size = 0x100 }

emit_free_aligned_mem_blocks-overlap_example :
    Covers (emit_free_aligned_mem_blocks (odd_ram ∷ []) (odd_image ∷ []) []) 0x1104
    × Contains 0x1104 odd_image
emit_free_aligned_mem_blocks-overlap_example =
    emit_free_aligned_mem_blocks-overlap odd_ram odd_image (omega arith) (omega arith) (omega arith)
      (omega arith) (omega arith) (omega arith) (omega arith)

run-around_example :
    let live = (run (start ram) (around 16 8)).live in
    (live
      ≡ record { base_addr = 0x1000; size = 8 }
        ∷ record { base_addr = 0x1010; size = 2 ^ 64 - 16 }
        ∷ record { base_addr = 0x1000; size = 16 }
        ∷ [])
    × (¬ AllDisjoint live)
run-around_example =
    run-around ram 16 8 (omega arith) (omega arith) (omega arith) (omega arith) (omega arith)

abbrev calls : List Op
calls = allocate 16 ∷ allocate 0x2000 ∷ clear ∷ allocate 8 ∷ allocate 24 ∷ []

-- Of these calls the last two are granted and live.
run-granted_sizes_example : run (start ram) calls ≡ record {
  arena = record { mem_block = ram; used = 32 };
  live = record { base_addr = 0x1008; size = 24 } ∷ record { base_addr = 0x1000; size = 8 } ∷ [];
}
unfolding granted_sizes granting layout total
run-granted_sizes_example = run-granted_sizes ram (omega arith) (omega arith) calls (omega arith)

align_nearest_example :
    IsFloor (2 ^ 12) 4099 (align_down 4099 (2 ^ 12))
    × (c : ℕ) × IsCeiling (2 ^ 12) 4099 c
    × (align_up 4099 (2 ^ 12) ≡ c % 2 ^ 64)
align_nearest_example = align_nearest 12 4099 (omega arith) (omega arith)

emit_free_aligned_mem_blocks-IsApart_example :
    IsApart (emit_free_aligned_mem_blocks (ram ∷ []) (kernel_image ∷ []) [])
emit_free_aligned_mem_blocks-IsApart_example =
    emit_free_aligned_mem_blocks-IsApart (ram ∷ []) (kernel_image ∷ []) (omega arith) (omega arith)
      (tt, tt)

-- An occupied block that begins between two words.
abbrev loaded_module : MemBlock
loaded_module = record { base_addr = 0x1203; size = 0x5d }

before_module : Covers (emit_free_aligned_mem_blocks (ram ∷ []) (loaded_module ∷ []) []) 0x1100
unfolding emit_free_aligned_mem_blocks visit_region visit_all visit_occupied emit_rest emit_free
    is_irrelevant align_down align_up
before_module = inl (omega arith)

emit_free_aligned_mem_blocks_sound_example :
    Covers [] 0x1100 ⊎ (Covers (ram ∷ []) 0x1100 × (¬ Covers (loaded_module ∷ []) 0x1100))
emit_free_aligned_mem_blocks_sound_example =
    emit_free_aligned_mem_blocks_sound (ram ∷ []) (loaded_module ∷ []) [] 0x1100 (omega arith)
      (omega arith) (omega arith) before_module

-- A byte of the occupied block is covered.
odd_overlap : Covers (emit_free_aligned_mem_blocks (odd_ram ∷ []) (odd_image ∷ []) []) 0x1104
unfolding emit_free_aligned_mem_blocks visit_region visit_all visit_occupied emit_rest emit_free
    is_irrelevant align_down align_up
odd_overlap = inl (omega arith)

emit_free_aligned_mem_blocks_slack_example :
    (Covers (emit_free_aligned_mem_blocks (odd_ram ∷ []) (odd_image ∷ []) []) 0x1104
      → Covers [] 0x1104
        ⊎ (Any (Reaches 7 0x1104) (odd_ram ∷ [])
            × (¬ Any (ContainsBehind 7 0x1104) (odd_image ∷ []))))
    × (Covers [] 0x1104
          ⊎ (Any (IsInside 7 0x1104) (odd_ram ∷ []) × (¬ Any (IsNear 7 0x1104) (odd_image ∷ [])))
        → Covers (emit_free_aligned_mem_blocks (odd_ram ∷ []) (odd_image ∷ []) []) 0x1104)
emit_free_aligned_mem_blocks_slack_example =
    emit_free_aligned_mem_blocks_slack (odd_ram ∷ []) (odd_image ∷ []) [] 0x1104 (omega arith)
      (omega arith) (omega arith)
