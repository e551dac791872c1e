-- ===== src/Memory/Arena/Laws/Layout.antt =====
-- The arena of kernel/src/memory/linear_arena.c as its client sees it: the sizes that were granted
-- since the last reset, laid out one behind the other.
use quakernel.Base.{
  ℕ, ◌+◌, ◌^◌, ◌≤◌, ◌<◌, ◌≡◌, refl, arith, inl, inr, true, false, List, [], ◌∷◌, All, leb,
  if◌then◌else◌,
}
use quakernel.Memory.Block.{MemBlock, Fits}
use quakernel.Memory.Arena.{create, reset}
use quakernel.Memory.Arena.Laws.{
  Op, allocate, clear, Ledger, call, granted, run, start, IsModest, alloc_lem,
}

unfoldable pub total : List ℕ → ℕ
total [] = 0
total (n ∷ sizes) = total sizes + n

-- A request is granted exactly if all sizes together are at most that of the block.
unfoldable pub granting : (size : ℕ) → List ℕ → Op → List ℕ
granting size sizes (allocate n) = if leb (total sizes + n) size then n ∷ sizes else sizes
granting size sizes clear = []

unfoldable pub granted_sizes : (size : ℕ) → List ℕ → List Op → List ℕ
granted_sizes size sizes [] = sizes
granted_sizes size sizes (op ∷ ops) = granted_sizes size (granting size sizes op) ops

-- The ranges of these sizes from an address on, the last one first, without a gap.
unfoldable pub layout : (base : ℕ) → List ℕ → List MemBlock
layout base [] = []
layout base (n ∷ sizes) = record { base_addr = base + total sizes; size = n } ∷ layout base sizes

module _ (block : MemBlock) (fits : Fits block) (small : block.size < 2 ^ 63) where
  abbrev pub laid_out : List ℕ → Ledger
  laid_out sizes = record {
    arena = record { mem_block = block; used = total sizes };
    live = layout block.base_addr sizes;
  }

  call-granting :
      (sizes : List ℕ) (op : Op)
      → total sizes ≤ block.size
      → IsModest op
      → (call (laid_out sizes) op ≡ laid_out (granting block.size sizes op))
        × (total (granting block.size sizes op) ≤ block.size)
  unfolding call granted reset granting total layout
  call-granting sizes clear h m = (refl, omega arith)
  call-granting sizes (allocate n) h m =
      elim (alloc_lem (laid_out sizes).arena n (record { fits = fits; used_in = h })
        (omega arith)) [
          | inl (room, e) ↦
              let yes : leb (total sizes + n) block.size ≡ true = ground arith in
              (rw (e, yes) refl, rw yes room)
          | inr (full, e) ↦
              let no : leb (total sizes + n) block.size ≡ false = ground arith in
              (rw (e, no) refl, rw no h)
        ]

  run-laid_out :
      (sizes : List ℕ) (ops : List Op)
      → total sizes ≤ block.size
      → All IsModest ops
      → run (laid_out sizes) ops ≡ laid_out (granted_sizes block.size sizes ops)
  unfolding run granted_sizes
  run-laid_out sizes [] h m = refl
  run-laid_out sizes (op ∷ ops) h m =
      let (e, h') = call-granting sizes op h m.0 in
      rw e (run-laid_out (granting block.size sizes op) ops h' m.1)

  -- Any calls on a new arena, each request of at most half the address space, come to this: a request
  -- is granted exactly if it and those granted since the last reset are together at most the size of
  -- the block, which lies in the address space and is smaller than half of it. What was granted lies
  -- one range behind the other, without a gap, from the block's address on, and as much of the block
  -- is used.
  pub run-granted_sizes :
      (ops : List Op)
      → All IsModest ops
      → run (start block) ops ≡ laid_out (granted_sizes block.size [] ops)
  unfolding create total layout
  run-granted_sizes ops m = run-laid_out [] ops (omega arith) m
