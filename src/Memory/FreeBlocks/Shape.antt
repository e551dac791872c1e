-- ===== src/Memory/FreeBlocks/Shape.antt =====
-- The form of the free blocks, how many there can be, and what happens when the inputs are not aligned
-- to words.
use quakernel.Base.{
  ℕ, ◌+◌, ◌-◌, ◌*◌, ◌%◌, ◌≤◌, ◌<◌, ◌≡◌, ◌≢◌, ap, arith, Bool-cases, inl, inr, List, [], ◌∷◌, All,
  All-append, length, length-append, sub64, ltb, ◌==◌, Any-append_left,
}
use quakernel.Memory.Align.{align_down, align_up, align_down-word, align_up_mod, align_up_lem}
use quakernel.Memory.Block.{MemBlock, end_addr, Contains, Covers, Fits}
use quakernel.Memory.FreeBlocks.Steps.{visit_all-skip, visit_all-take}
use quakernel.Memory.FreeBlocks.{
  emit_free, is_irrelevant, visit_all, emit_rest, visit_region, emit_free_aligned_mem_blocks,
}

-- A block of whole words, at least one, at the address of a word.
abbrev pub IsWordBlock : MemBlock → Type 0
IsWordBlock b = (b.base_addr % 8 ≡ 0) × (b.size % 8 ≡ 0) × (0 < b.size)

emit_free-IsWordBlock :
    (start stop : ℕ) (out : List MemBlock)
    → All IsWordBlock out
    → All IsWordBlock (emit_free start stop out)
unfolding emit_free
emit_free-IsWordBlock start stop out h = elim (Bool-cases (ltb start stop)) [
  | inl t ↦ elim (Bool-cases (align_down (sub64 stop start) 8 == 0)) [
    | inl z ↦ rw (t, z) h
    | inr n ↦
        rw (t, n)
          (All-append IsWordBlock out _ h (
            (align_up_mod start, ground (arith, align_down-word (sub64 stop start)), ground arith),
            tt,
          ))
  ]
  | inr f ↦ rw f h
]

visit_all-IsWordBlock :
    (stop : ℕ) (os : List MemBlock) (start : ℕ) (out : List MemBlock)
    → All IsWordBlock out
    → All IsWordBlock (visit_all stop os (start, out)).1
unfolding visit_all
visit_all-IsWordBlock stop [] start out h = h
visit_all-IsWordBlock stop (o ∷ os) start out h = elim (Bool-cases (is_irrelevant stop start o)) [
  | inl e ↦ rw (visit_all-skip stop start o os out e) (visit_all-IsWordBlock stop os start out h)
  | inr e ↦ rw (visit_all-take stop start o os out e) (
      visit_all-IsWordBlock stop os (end_addr o) (emit_free start o.base_addr out)
        (emit_free-IsWordBlock start o.base_addr out h))
]

-- Whatever the regions and the occupied blocks are, every block that is added has a word-aligned
-- address and a positive whole number of words, if the blocks in the output before have.
pub emit_free_aligned_mem_blocks-IsWordBlock :
    (regions occupied out : List MemBlock)
    → All IsWordBlock out
    → All IsWordBlock (emit_free_aligned_mem_blocks regions occupied out)
unfolding emit_free_aligned_mem_blocks visit_region emit_rest
emit_free_aligned_mem_blocks-IsWordBlock [] occupied out h = h
emit_free_aligned_mem_blocks-IsWordBlock (r ∷ regions) occupied out h =
    emit_free_aligned_mem_blocks-IsWordBlock regions occupied _ (
      emit_free-IsWordBlock (visit_all (end_addr r) occupied (r.base_addr, out)).0 (end_addr r) _
        (visit_all-IsWordBlock (end_addr r) occupied r.base_addr out h))

length-emit_free :
    (start stop : ℕ) (out : List MemBlock) → length (emit_free start stop out) ≤ length out + 1
unfolding emit_free
length-emit_free start stop out = ground (
  arith,
  length-append out
      (record { base_addr = align_up start 8; size = align_down (sub64 stop start) 8 } ∷ []),
)

length-visit_all :
    (stop : ℕ) (os : List MemBlock) (start : ℕ) (out : List MemBlock)
    → length (visit_all stop os (start, out)).1 ≤ length out + length os
unfolding visit_all
length-visit_all stop [] start out = omega arith
length-visit_all stop (o ∷ os) start out = elim (Bool-cases (is_irrelevant stop start o)) [
  | inl e ↦
      rw (visit_all-skip stop start o os out e) (omega (arith, length-visit_all stop os start out))
  | inr e ↦ rw (visit_all-take stop start o os out e) (
      omega (
        arith,
        length-visit_all stop os (end_addr o) (emit_free start o.base_addr out),
        length-emit_free start o.base_addr out,
      ))
]

-- The array must have room for one block more than there are occupied blocks, for each region: no more
-- blocks than that are ever written.
pub length-emit_free_aligned_mem_blocks :
    (regions occupied out : List MemBlock)
    → length (emit_free_aligned_mem_blocks regions occupied out)
      ≤ length out + length regions * (length occupied + 1)
unfolding emit_free_aligned_mem_blocks visit_region emit_rest
length-emit_free_aligned_mem_blocks [] occupied out = omega arith
length-emit_free_aligned_mem_blocks (r ∷ regions) occupied out =
    let start = (visit_all (end_addr r) occupied (r.base_addr, out)).0 in
    let visited = (visit_all (end_addr r) occupied (r.base_addr, out)).1 in
    omega (
      arith,
      length-emit_free_aligned_mem_blocks regions occupied (emit_free start (end_addr r) visited),
      length-emit_free start (end_addr r) visited,
      length-visit_all (end_addr r) occupied r.base_addr out,
    )

emit_free-keeps :
    (start stop : ℕ) (out : List MemBlock) (a : ℕ)
    → Covers out a
    → Covers (emit_free start stop out) a
unfolding emit_free
emit_free-keeps start stop out a h = elim (Bool-cases (ltb start stop)) [
  | inl t ↦ elim (Bool-cases (align_down (sub64 stop start) 8 == 0)) [
    | inl z ↦ rw (t, z) h
    | inr n ↦ rw (t, n) (Any-append_left (Contains a) out _ h)
  ]
  | inr f ↦ rw f h
]

-- If the RAM region begins between two words and an occupied block begins a whole number of words
-- further on, inside the region, then the free block that is written for the gap between them reaches
-- into the occupied block: its address is rounded up and its size is not reduced.
pub emit_free_aligned_mem_blocks-overlap :
    (r o : MemBlock)
    → r.base_addr % 8 ≢ 0
    → r.base_addr < o.base_addr
    → (o.base_addr - r.base_addr) % 8 ≡ 0
    → o.base_addr ≤ r.base_addr + r.size
    → 0 < o.size
    → Fits r
    → Fits o
    → Covers (emit_free_aligned_mem_blocks (r ∷ []) (o ∷ []) []) o.base_addr
      × Contains o.base_addr o
emit_free_aligned_mem_blocks-overlap r o odd before apart inside occupied fr fo = (
  rw run (emit_free-keeps (end_addr o) (end_addr r) (gap ∷ []) o.base_addr (inl in_gap)),
  omega arith,
)
  where
    gap : MemBlock
    gap = record {
      base_addr = align_up r.base_addr 8;
      size = align_down (sub64 o.base_addr r.base_addr) 8;
    }

    first : emit_free r.base_addr o.base_addr [] ≡ gap ∷ []
    first = unfold emit_free in ground (arith, align_down-word (sub64 o.base_addr r.base_addr))

    visited : visit_all (end_addr r) (o ∷ []) (r.base_addr, []) ≡ (end_addr o, gap ∷ [])
    visited =
        unfold visit_all in
        rw (
          visit_all-take (end_addr r) r.base_addr o [] [] (unfold is_irrelevant in ground arith),
          first,
        )

    run :
        emit_free_aligned_mem_blocks (r ∷ []) (o ∷ []) []
        ≡ emit_free (end_addr o) (end_addr r) (gap ∷ [])
    run =
        unfold emit_free_aligned_mem_blocks visit_region emit_rest in
        ap (emit_rest (end_addr r)) visited

    in_gap : Contains o.base_addr gap
    in_gap = omega (
      arith,
      align_up_lem 3 r.base_addr (omega arith) (omega arith),
      align_down-word (sub64 o.base_addr r.base_addr),
    )
