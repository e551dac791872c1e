-- ===== src/Memory/Arena/Laws/Wrap.antt =====
-- What a sum `used + sizeInBytes` that wraps round does to an arena (kernel/src/memory/linear_arena.c).
use quakernel.Base.{ℕ, ◌+◌, ◌-◌, ◌^◌, ◌≤◌, ◌<◌, ◌≡◌, arith, inl, inr, List, [], ◌∷◌}
use quakernel.Memory.Block.{MemBlock, Fits}
use quakernel.Memory.Arena.{create, alloc}
use quakernel.Memory.Arena.Laws.{Op, allocate, call, granted, run, start, AllDisjoint}

-- Some bytes, all that are missing to `2 ^ 64`, and some bytes again.
abbrev pub around : (u m : ℕ) → List Op
around u m = allocate u ∷ allocate (2 ^ 64 - u) ∷ allocate m ∷ []

granted_around :
    (b : MemBlock) (u m : ℕ)
    → Fits b
    → 0 < u
    → u ≤ b.size
    → m ≤ b.size
    → (run (start b) (around u m)).live
      ≡ record { base_addr = b.base_addr; size = m }
        ∷ record { base_addr = b.base_addr + u; size = 2 ^ 64 - u }
        ∷ record { base_addr = b.base_addr; size = u }
        ∷ []
unfolding run call granted create alloc
granted_around b u m fits some' le le' = ground arith

-- On an arena on a block inside the address space, a request of some bytes that the block has room
-- for, one of all that are then missing to `2 ^ 64`, and one of some bytes again, at least one byte
-- and no more than the block has: all three are granted, although the second is larger than the
-- block, and the first and the third range begin at the same address. So the ranges that are handed
-- out are not disjoint.
pub run-around :
    (b : MemBlock) (u m : ℕ)
    → Fits b
    → 0 < u
    → u ≤ b.size
    → 0 < m
    → m ≤ b.size
    → let live = (run (start b) (around u m)).live in
      (live
        ≡ record { base_addr = b.base_addr; size = m }
          ∷ record { base_addr = b.base_addr + u; size = 2 ^ 64 - u }
          ∷ record { base_addr = b.base_addr; size = u }
          ∷ [])
      × (¬ AllDisjoint live)
run-around b u m fits some' le more le' =
    let e = granted_around b u m fits some' le le' in
    (
      e,
      λ h.
          let h' = rw e at h in
          elim h'.0.1.0 [ inl before ↦ absurd (omega arith) | inr behind ↦ absurd (omega arith) ],
    )
