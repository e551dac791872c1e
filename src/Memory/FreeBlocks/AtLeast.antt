-- ===== src/Memory/FreeBlocks/AtLeast.antt =====
-- The bytes that `QKEmitFreeAlignedMemBlocks` adds in any case, by what one emission adds.
use quakernel.Base.{
  ℕ, ◌+◌, ◌≤◌, ◌<◌, arith, Bool-cases, ◌⊎◌, inl, inr, List, [], ◌∷◌, All, Any, ltb, tests,
}
use quakernel.Memory.Block.{MemBlock, end_addr, Covers, Fits}
use quakernel.Memory.FreeBlocks.Steps.{finish, finish-nil, finish-skip, finish-take}
use quakernel.Memory.FreeBlocks.{
  emit_free, is_irrelevant, visit_region, emit_free_aligned_mem_blocks,
}

-- The byte lies in the block, and so do the `k` bytes on either side of it.
abbrev pub IsInside : ℕ → ℕ → MemBlock → Type 0
IsInside k a b = (b.base_addr + k ≤ a) × (a + k < b.base_addr + b.size)

-- The byte lies in the block, or less than `k` bytes behind it, or at most `k` bytes before it.
abbrev pub IsNear : ℕ → ℕ → MemBlock → Type 0
IsNear k a b = (b.base_addr ≤ a + k) × (a < b.base_addr + b.size + k)

-- An emission between addresses with the property adds every byte but `k` at its bounds.
abbrev pub AddsAtLeast : ℕ → (ℕ → Type 0) → Type 0
AddsAtLeast k P =
    (start stop : ℕ) (out : List MemBlock) (a : ℕ)
    → P start
    → P stop
    → Covers out a ⊎ ((start + k ≤ a) × (a + k < stop))
    → Covers (emit_free start stop out) a

module _ (k : ℕ) (P : ℕ → Type 0) (adds : AddsAtLeast k P) where
  -- A block whose bounds have the property.
  abbrev pub IsBounded : MemBlock → Type 0
  IsBounded b = Fits b × P b.base_addr × P (end_addr b)

  finish-AtLeast :
      (stop a : ℕ) (os : List MemBlock) (start : ℕ) (out : List MemBlock)
      → P stop
      → All IsBounded os
      → P start
      → Covers out a ⊎ ((start + k ≤ a) × (a + k < stop) × (¬ Any (IsNear k a) os))
      → Covers (finish stop os (start, out)) a
  finish-AtLeast stop a [] start out last good p h =
      rw (finish-nil stop start out)
        (adds start stop out a p last (elim h [ inl old ↦ inl old | inr l ↦ inr (l.0, l.1) ]))
  finish-AtLeast stop a (o ∷ os) start out last good p h =
      elim (Bool-cases (is_irrelevant stop start o)) [
        | inl e ↦ rw (finish-skip stop start o os out e) (
            finish-AtLeast stop a os start out last good.1 p
              (elim h [ inl old ↦ inl old | inr l ↦ inr (l.0, l.1, λ q. l.2 (inr q)) ]))
        | inr e ↦
            let emitted = adds start o.base_addr out a p good.0.1 in
            rw (finish-take stop start o os out e) (
              finish-AtLeast stop a os (end_addr o) (emit_free start o.base_addr out) last good.1
                good.0.2
                (elim h [
                  | inl old ↦ inl (emitted (inl old))
                  | inr l ↦ elim (Bool-cases (ltb (a + k) o.base_addr)) [
                    | inl t ↦ inl (emitted (inr (l.0, omega tests)))
                    | inr f ↦ elim (Bool-cases (ltb a (end_addr o + k))) [
                      | inl t ↦ absurd (l.2 (inl (omega (tests, good.0.0))))
                      | inr g ↦ inr (omega tests, l.1, λ q. l.2 (inr q))
                    ]
                  ]
                ]))
      ]

  visit_region-AtLeast :
      (occupied : List MemBlock) (r : MemBlock) (out : List MemBlock) (a : ℕ)
      → All IsBounded occupied
      → IsBounded r
      → Covers out a ⊎ (IsInside k a r × (¬ Any (IsNear k a) occupied))
      → Covers (visit_region occupied r out) a
  unfolding visit_region
  visit_region-AtLeast occupied r out a good rg h =
      finish-AtLeast (end_addr r) a occupied r.base_addr out rg.2 good rg.1
        (elim h [ inl old ↦ inl old | inr l ↦ inr (l.0.0, omega (arith, l.0, rg.0), l.1) ])

  pub emit-AtLeast :
      (regions occupied out : List MemBlock) (a : ℕ)
      → All IsBounded regions
      → All IsBounded occupied
      → Covers out a ⊎ (Any (IsInside k a) regions × (¬ Any (IsNear k a) occupied))
      → Covers (emit_free_aligned_mem_blocks regions occupied out) a
  unfolding emit_free_aligned_mem_blocks
  emit-AtLeast [] occupied out a rs good h = elim h [ inl old ↦ old | inr l ↦ absurd l.0 ]
  emit-AtLeast (r ∷ regions) occupied out a rs good h =
      let here = visit_region-AtLeast occupied r out a good rs.0 in
      emit-AtLeast regions occupied (visit_region occupied r out) a rs.1 good (elim h [
        | inl old ↦ inl (here (inl old))
        | inr l ↦ elim (l.0) [ inl c ↦ inl (here (inr (c, l.1))) | inr cs ↦ inr (cs, l.1) ]
      ])
