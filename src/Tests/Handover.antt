-- ===== src/Tests/Handover.antt =====
-- Sorting, free blocks and the arena together, at concrete inputs.
use quakernel.Base.{ℕ, ◌≡◌, ◌↔◌, refl, arith, List, [], ◌∷◌, All}
use quakernel.Base.Exec.{returned}
use quakernel.InsertionSort.{insertion_sort}
use quakernel.InsertionSort.Elements.{join}
use quakernel.InsertionSort.Standard.{standard}
use quakernel.Memory.Align.{align_down, align_up}
use quakernel.Memory.Block.{MemBlock, Contains, Covers}
use quakernel.Memory.Sorting.{block_of, blocks_of, compare_stored}
use quakernel.Memory.FreeBlocks.{
  emit_free, is_irrelevant, visit_occupied, visit_all, emit_rest, visit_region,
  emit_free_aligned_mem_blocks,
}
use quakernel.Memory.Arena.Laws.{Op, allocate, run, call, granted, AllDisjoint}
use quakernel.Memory.Arena.{create, alloc}
use quakernel.Memory.Handover.{insertion_sort-emit_free_aligned_mem_blocks}
use quakernel.Memory.Arenas.{all_live, all_live-insertion_sort}
use quakernel.Tests.Sorting.{zeros, stored_block}
use quakernel.Tests.Memory.{ram}

insertion_sort-emit_free_aligned_mem_blocks_example :
    (sorted : List (List ℕ)) × (insertion_sort standard 16 compare_stored
        (zeros 256)
        (join (stored_block 32 ∷ stored_block 16 ∷ []))
        2
        tt
      ≡ returned (join sorted) tt)
    × ((a : ℕ)
        → Covers (emit_free_aligned_mem_blocks (ram ∷ []) (blocks_of sorted) []) a ↔ (
            Covers (ram ∷ []) a
            × (¬ Covers (blocks_of (stored_block 32 ∷ stored_block 16 ∷ [])) a)))
unfolding block_of
insertion_sort-emit_free_aligned_mem_blocks_example =
    insertion_sort-emit_free_aligned_mem_blocks {S = Unit {0}} standard
      (stored_block 32 ∷ stored_block 16 ∷ []) (zeros 256) tt (ram ∷ []) (omega arith) (omega arith)
      (omega arith) (omega arith) (omega arith)

abbrev low_ram : MemBlock
low_ram = record { base_addr = 0; size = 0x8000 }

-- Two requests on every arena.
abbrev two_calls : MemBlock → List Op
two_calls b = allocate 0x100 ∷ allocate 0x40 ∷ []

all_live-insertion_sort_example :
    (sorted : List (List ℕ)) × (insertion_sort standard 16 compare_stored
        (zeros 256)
        (join (stored_block 32 ∷ stored_block 16 ∷ []))
        2
        tt
      ≡ returned (join sorted) tt)
    × (let handed_out =
          all_live two_calls (emit_free_aligned_mem_blocks (low_ram ∷ []) (blocks_of sorted) []) in
        All
          (λ r.
            (a : ℕ)
            → Contains a r
            → Covers (low_ram ∷ []) a
              × (¬ Covers (blocks_of (stored_block 32 ∷ stored_block 16 ∷ [])) a))
          handed_out
        × AllDisjoint handed_out)
unfolding block_of
all_live-insertion_sort_example =
    all_live-insertion_sort {S = Unit {0}} standard (stored_block 32 ∷ stored_block 16 ∷ [])
      (zeros 256) tt (low_ram ∷ []) two_calls (omega arith) (omega arith) (omega arith)
      (omega arith) (omega arith) (omega arith) (tt, tt) (λ b. omega arith)

-- Between, before and behind the two blocks: 0x1000 bytes and 0x5000 bytes are free, and on each of
-- these two blocks an arena hands out its two ranges.
two_arenas :
    all_live two_calls (
      emit_free_aligned_mem_blocks
        (low_ram ∷ [])
        (record { base_addr = 0x1000; size = 0x1000 }
          ∷ record { base_addr = 0x2000; size = 0x1000 }
          ∷ [])
        [])
    ≡ record { base_addr = 0x100; size = 0x40 }
      ∷ record { base_addr = 0; size = 0x100 }
      ∷ record { base_addr = 0x3100; size = 0x40 }
      ∷ record { base_addr = 0x3000; size = 0x100 }
      ∷ []
unfolding emit_free_aligned_mem_blocks visit_region visit_all visit_occupied emit_rest emit_free
    is_irrelevant align_down align_up run call granted create alloc
two_arenas = refl
