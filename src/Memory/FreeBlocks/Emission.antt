-- ===== src/Memory/FreeBlocks/Emission.antt =====
-- One emission of `QKEmitFreeAlignedMemBlocks` between word-aligned bounds: which bytes it adds.
use quakernel.Base.{
  ℕ, ◌-◌, ◌%◌, ◌^◌, ◌≤◌, ◌<◌, ◌+◌, ◌==◌, ◌≡◌, arith, Bool-cases, ◌⊎◌, inl, inr, List, [], ◌∷◌, ◌++◌,
  sub64, ltb, Any-append_left, Any-append_right,
}
use quakernel.Memory.Align.{align_down, align_up, align_down-word, align_up-word}
use quakernel.Memory.Block.{MemBlock, Contains, Covers}
use quakernel.Memory.FreeBlocks.{emit_free}

abbrev pub Between : ℕ → ℕ → ℕ → Type 0
Between start stop a = (start ≤ a) × (a < stop)

-- What one emission adds, whatever its bounds are.
pub emit_free-adds :
    (start stop : ℕ) (out : List MemBlock) (a : ℕ)
    → Covers out a
      ⊎ ((start < stop)
          × (align_up start 8 ≤ a)
          × (a < align_up start 8 + align_down (sub64 stop start) 8))
    → Covers (emit_free start stop out) a
unfolding emit_free
emit_free-adds start stop out a h = elim (Bool-cases (ltb start stop)) [
  | inl t ↦ elim (Bool-cases (align_down (sub64 stop start) 8 == 0)) [
    | inl z ↦ rw (t, z) (elim h [ inl old ↦ old | inr new ↦ absurd (ground (arith, new)) ])
    | inr n ↦
        rw (t, n)
          (elim h [
            | inl old ↦ Any-append_left (Contains a) out _ old
            | inr new ↦ Any-append_right (Contains a) out _ (inl (new.1, new.2))
          ])
  ]
  | inr f ↦ rw f (elim h [ inl old ↦ old | inr new ↦ absurd (ground (arith, new)) ])
]

module _ {start stop : ℕ} (aligned : (start % 8 ≡ 0) × (stop % 8 ≡ 0))
    (fits : (start < 2 ^ 64) × (stop < 2 ^ 64)) where
  free_block :
      start < stop → (align_up start 8 ≡ start) × (align_down (sub64 stop start) 8 ≡ stop - start)
  free_block h =
      (align_up-word start fits.0 aligned.0, omega (arith, align_down-word (sub64 stop start)))

  pub emit_free-some :
      start < stop
      → (out : List MemBlock)
      → emit_free start stop out ≡ out ++ record { base_addr = start; size = stop - start } ∷ []
  unfolding emit_free
  emit_free-some h out = ground (arith, free_block h)

  pub emit_free-none : stop ≤ start → (out : List MemBlock) → emit_free start stop out ≡ out
  unfolding emit_free
  emit_free-none h out = ground arith

  -- One emission adds the bytes between its bounds.
  pub emit_free← :
      (out : List MemBlock) (a : ℕ)
      → Covers out a ⊎ Between start stop a
      → Covers (emit_free start stop out) a
  emit_free← out a h = emit_free-adds start stop out a (elim h [
    | inl old ↦ inl old
    | inr new ↦
        let (up, down) = free_block (omega arith) in
        inr (omega arith, omega (arith, up), omega (arith, up, down))
  ])
