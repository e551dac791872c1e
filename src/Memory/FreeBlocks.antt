-- ===== src/Memory/FreeBlocks.antt =====
-- `QKEmitFreeAlignedMemBlocks` (kernel/src/memory/memory.c). The array that the blocks are written to
-- is the list of the blocks in it, and the count behind `pFreeMemBlocksCount` its length.
mod Steps
mod Emission
pub mod AtMost
pub mod AtLeast
pub mod Coverage
pub mod Shape
pub mod Apart
pub mod Soundness
use quakernel.Base.{ℕ, Bool, ◌||◌, List, [], ◌∷◌, ◌++◌, ltb, ◌==◌, if◌then◌else◌, sub64}
use quakernel.Memory.Align.{align_down, align_up}
use quakernel.Memory.Block.{MemBlock, end_addr}

-- The tail of both branches: append the free bytes from `start` to `stop`, cut to whole words.
unfoldable pub emit_free : ℕ → ℕ → List MemBlock → List MemBlock
emit_free start stop out =
    let aligned_size = align_down (sub64 stop start) 8 in
    if ltb start stop
    then if aligned_size == 0
      then out
      else out ++ record { base_addr = align_up start 8; size = aligned_size } ∷ []
    else out

-- `occupiedEnd < currentStart || regEnd < occupiedStart`
unfoldable pub is_irrelevant : ℕ → ℕ → MemBlock → Bool
is_irrelevant reg_end current_start occupied =
    ltb (end_addr occupied) current_start || ltb reg_end occupied.base_addr

-- One round of the inner loop, on `currentStart` and the output.
unfoldable pub visit_occupied : ℕ → MemBlock → ℕ × List MemBlock → ℕ × List MemBlock
visit_occupied reg_end occupied (current_start, out) =
    if is_irrelevant reg_end current_start occupied
    then (current_start, out)
    else (end_addr occupied, emit_free current_start occupied.base_addr out)

unfoldable pub visit_all : ℕ → List MemBlock → ℕ × List MemBlock → ℕ × List MemBlock
visit_all reg_end [] state = state
visit_all reg_end (o ∷ os) state = visit_all reg_end os (visit_occupied reg_end o state)

-- What is left of the region after its last occupied block.
unfoldable pub emit_rest : ℕ → ℕ × List MemBlock → List MemBlock
emit_rest reg_end (current_start, out) = emit_free current_start reg_end out

-- One round of the outer loop.
unfoldable pub visit_region : List MemBlock → MemBlock → List MemBlock → List MemBlock
visit_region occupied region out =
    emit_rest (end_addr region) (visit_all (end_addr region) occupied (region.base_addr, out))

unfoldable pub emit_free_aligned_mem_blocks :
    List MemBlock → List MemBlock → List MemBlock → List MemBlock
emit_free_aligned_mem_blocks [] occupied out = out
emit_free_aligned_mem_blocks (region ∷ regions) occupied out =
    emit_free_aligned_mem_blocks regions occupied (visit_region occupied region out)
