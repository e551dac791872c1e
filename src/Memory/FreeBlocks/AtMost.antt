-- ===== src/Memory/FreeBlocks/AtMost.antt =====
-- The bytes that `QKEmitFreeAlignedMemBlocks` can at most add, by what one emission adds.
use quakernel.Base.{
  ℕ, ◌+◌, ◌^◌, ◌≤◌, ◌<◌, arith, Bool-cases, ◌⊎◌, inl, inr, List, [], ◌∷◌, All, Any, sub64, ltb,
  ◌==◌, Any-append_split,
}
use quakernel.Memory.Align.{align_down, align_up}
use quakernel.Memory.Block.{MemBlock, end_addr, Contains, Covers, Fits, IsSortedByAddr}
use quakernel.Memory.FreeBlocks.Steps.{
  finish, finish-nil, finish-skip, finish-take, skip-facts, take-facts,
}
use quakernel.Memory.FreeBlocks.{
  emit_free, is_irrelevant, visit_region, emit_free_aligned_mem_blocks,
}

-- A byte that one emission adds.
emit_free-added :
    (start stop : ℕ) (out : List MemBlock) (a : ℕ)
    → Covers (emit_free start stop out) a
    → Covers out a
      ⊎ ((start < stop)
          × (align_up start 8 ≤ a)
          × (a < align_up start 8 + align_down (sub64 stop start) 8))
unfolding emit_free
emit_free-added start stop out a h = elim (Bool-cases (ltb start stop)) [
  | inl t ↦ elim (Bool-cases (align_down (sub64 stop start) 8 == 0)) [
    | inl z ↦ inl (rw (t, z) at h)
    | inr n ↦ elim (Any-append_split (Contains a) out _ (rw (t, n) at h)) [
      | inl old ↦ inl old
      | inr (inl new) ↦ inr (ground arith, new.0, new.1)
      | inr (inr none) ↦ absurd none
    ]
  ]
  | inr f ↦ inl (rw f at h)
]

-- The byte is in the block, behind its first `k` bytes.
abbrev pub ContainsBehind : ℕ → ℕ → MemBlock → Type 0
ContainsBehind k a b = (b.base_addr + k ≤ a) × (a < b.base_addr + b.size)

-- The byte is in the block or in the `k` bytes after it.
abbrev pub Reaches : ℕ → ℕ → MemBlock → Type 0
Reaches k a b = (b.base_addr ≤ a) × (a < b.base_addr + b.size + k)

below_later :
    (os : List MemBlock) (k lo a : ℕ)
    → All (λ c. lo ≤ c.base_addr) os
    → a < lo + k
    → ¬ Any (ContainsBehind k a) os
below_later [] k lo a h lt c = c
below_later (o ∷ os) k lo a h lt (inl c) = omega arith
below_later (o ∷ os) k lo a h lt (inr c) = below_later os k lo a h.1 lt c

-- An emission that begins at an address with the property adds at most `k` bytes behind its end.
abbrev pub AddsAtMost : ℕ → (ℕ → Type 0) → Type 0
AddsAtMost k P =
    (start stop a : ℕ)
    → P start
    → start < stop
    → stop < 2 ^ 64
    → align_up start 8 ≤ a
    → a < align_up start 8 + align_down (sub64 stop start) 8
    → (start ≤ a) × (a < stop + k)

module _ (k : ℕ) (P : ℕ → Type 0) (adds : AddsAtMost k P) where
  abbrev pub IsRegion : MemBlock → Type 0
  IsRegion b = Fits b × P b.base_addr

  abbrev pub IsOccupied : MemBlock → Type 0
  IsOccupied b = Fits b × P (end_addr b)

  emit_free-AtMost :
      (start stop : ℕ) (out : List MemBlock) (a : ℕ)
      → P start
      → stop < 2 ^ 64
      → Covers (emit_free start stop out) a
      → Covers out a ⊎ ((start ≤ a) × (a < stop + k))
  emit_free-AtMost start stop out a p fits h = elim (emit_free-added start stop out a h) [
    | inl old ↦ inl old
    | inr (lt, lo, hi) ↦ inr (adds start stop a p lt fits lo hi)
  ]

  finish-AtMost :
      (stop a : ℕ) (os : List MemBlock) (start : ℕ) (out : List MemBlock)
      → stop < 2 ^ 64
      → All IsOccupied os
      → IsSortedByAddr os
      → P start
      → Covers (finish stop os (start, out)) a
      → Covers out a ⊎ ((start ≤ a) × (a < stop + k) × (¬ Any (ContainsBehind k a) os))
  finish-AtMost stop a [] start out fits good sorted p h =
      elim (emit_free-AtMost start stop out a p fits (rw (finish-nil stop start out) at h)) [
        | inl old ↦ inl old
        | inr new ↦ inr (new.0, new.1, λ c. c)
      ]
  finish-AtMost stop a (o ∷ os) start out fits good sorted p h =
      elim (Bool-cases (is_irrelevant stop start o)) [
        | inl e ↦
            elim (finish-AtMost stop a os start out fits good.1 sorted.1 p
              (rw (finish-skip stop start o os out e) at h)) [
                | inl old ↦ inl old
                | inr new ↦ inr (
                  new.0,
                  new.1,
                  λ c. elim c [
                    | inl q ↦ omega (arith, skip-facts stop start o good.0.0 e)
                    | inr q ↦ new.2 q
                  ],
                )
              ]
        | inr e ↦
            elim (finish-AtMost stop a os (end_addr o) (emit_free start o.base_addr out) fits good.1
              sorted.1 good.0.1 (rw (finish-take stop start o os out e) at h)) [
                | inl old ↦ elim (emit_free-AtMost start o.base_addr out a p (omega arith) old) [
                  | inl older ↦ inl older
                  | inr new ↦ inr (
                    new.0,
                    omega (arith, take-facts stop start o good.0.0 e),
                    λ c. elim c [
                      | inl q ↦ omega arith
                      | inr q ↦ below_later os k o.base_addr a sorted.0 new.1 q
                    ],
                  )
                ]
                | inr new ↦ inr (
                  omega (arith, take-facts stop start o good.0.0 e),
                  new.1,
                  λ c. elim c [ inl q ↦ omega arith | inr q ↦ new.2 q ],
                )
              ]
      ]

  visit_region-AtMost :
      (occupied : List MemBlock) (r : MemBlock) (out : List MemBlock) (a : ℕ)
      → All IsOccupied occupied
      → IsSortedByAddr occupied
      → IsRegion r
      → Covers (visit_region occupied r out) a
      → Covers out a ⊎ (Reaches k a r × (¬ Any (ContainsBehind k a) occupied))
  unfolding visit_region
  visit_region-AtMost occupied r out a good sorted rg h =
      elim (finish-AtMost (end_addr r) a occupied r.base_addr out (omega arith) good sorted rg.1
        h) [ inl old ↦ inl old | inr new ↦ inr ((new.0, omega arith), new.2) ]

  pub emit-AtMost :
      (regions occupied out : List MemBlock) (a : ℕ)
      → All IsRegion regions
      → All IsOccupied occupied
      → IsSortedByAddr occupied
      → Covers (emit_free_aligned_mem_blocks regions occupied out) a
      → Covers out a ⊎ (Any (Reaches k a) regions × (¬ Any (ContainsBehind k a) occupied))
  unfolding emit_free_aligned_mem_blocks
  emit-AtMost [] occupied out a rs good sorted h = inl h
  emit-AtMost (r ∷ regions) occupied out a rs good sorted h =
      elim (emit-AtMost regions occupied (visit_region occupied r out) a rs.1 good sorted h) [
        | inr later ↦ inr (inr later.0, later.1)
        | inl here ↦ elim (visit_region-AtMost occupied r out a good sorted rs.0 here) [
          | inl old ↦ inl old
          | inr new ↦ inr (inl new.0, new.1)
        ]
      ]
