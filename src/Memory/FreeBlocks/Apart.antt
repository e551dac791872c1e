-- ===== src/Memory/FreeBlocks/Apart.antt =====
-- The free blocks stand in the order of their addresses and share no byte.
use quakernel.Base.{
  ℕ, ◌+◌, ◌≤◌, arith, Bool-cases, inl, inr, List, [], ◌∷◌, ◌++◌, All, All-append, All-map, ltb,
  ltb→lt, ltb→le,
}
use quakernel.Memory.Block.{MemBlock, end_addr}
use quakernel.Memory.FreeBlocks.Coverage.{IsGood, IsWord, end_addr-IsWord}
use quakernel.Memory.FreeBlocks.Emission.{emit_free-some, emit_free-none}
use quakernel.Memory.FreeBlocks.Steps.{finish, finish-nil, finish-skip, finish-take, take-facts}
use quakernel.Memory.FreeBlocks.{
  emit_free, is_irrelevant, visit_region, emit_free_aligned_mem_blocks,
}

-- The block ends at `hi` or before.
abbrev EndsBy : ℕ → MemBlock → Type 0
EndsBy hi b = b.base_addr + b.size ≤ hi

-- Each block ends before any later one begins.
abbrev pub IsApart : List MemBlock → Type 0
IsApart [] = Unit
IsApart (b ∷ bs) = All (λ c. EndsBy c.base_addr b) bs × IsApart bs

-- Such blocks, all of which end at `hi` or before.
abbrev IsApartBy : ℕ → List MemBlock → Type 0
IsApartBy hi bs = IsApart bs × All (EndsBy hi) bs

IsApart-append :
    (bs : List MemBlock) (c : MemBlock) → IsApartBy c.base_addr bs → IsApart (bs ++ c ∷ [])
IsApart-append [] c h = (tt, tt)
IsApart-append (b ∷ bs) c h =
    (All-append _ bs (c ∷ []) h.0.0 (h.1.0, tt), IsApart-append bs c (h.0.1, h.1.1))

EndsBy-later : (lo hi : ℕ) (bs : List MemBlock) → lo ≤ hi → All (EndsBy lo) bs → All (EndsBy hi) bs
EndsBy-later lo hi bs le = All-map _ _ (λ b p. omega arith) bs

emit_free-IsApartBy :
    (start stop hi : ℕ) (out : List MemBlock)
    → IsWord start
    → IsWord stop
    → stop ≤ hi
    → IsApartBy start out
    → All (EndsBy hi) out
    → IsApartBy hi (emit_free start stop out)
emit_free-IsApartBy start stop hi out ws we le h old = elim (Bool-cases (ltb start stop)) [
  | inl t ↦ rw (emit_free-some (ws.0, we.0) (ws.1, we.1) (ltb→lt _ _ t) out) (
    IsApart-append out _ h,
    All-append (EndsBy hi) out _ old (omega (arith, ltb→lt start stop t), tt),
  )
  | inr f ↦ rw (emit_free-none (ws.0, we.0) (ws.1, we.1) (ltb→le _ _ f) out) (h.0, old)
]

finish-IsApartBy :
    (stop start : ℕ) (os out : List MemBlock)
    → IsWord stop
    → IsWord start
    → All IsGood os
    → IsApartBy start out
    → All (EndsBy stop) out
    → IsApartBy stop (finish stop os (start, out))
finish-IsApartBy stop start [] out wt ws good h old =
    rw (finish-nil stop start out)
      (emit_free-IsApartBy start stop stop out ws wt (omega arith) h old)
finish-IsApartBy stop start (o ∷ os) out wt ws good h old =
    elim (Bool-cases (is_irrelevant stop start o)) [
      | inl e ↦
          rw (finish-skip stop start o os out e)
            (finish-IsApartBy stop start os out wt ws good.1 h old)
      | inr e ↦
          let facts = take-facts stop start o good.0.1 e in
          let (word, end) = end_addr-IsWord o good.0 in
          let later = EndsBy-later start (end_addr o) out (omega arith) h.1 in
          let wo : IsWord o.base_addr = omega arith in
          rw (finish-take stop start o os out e) (
            finish-IsApartBy stop (end_addr o) os (emit_free start o.base_addr out) wt word good.1
              (emit_free-IsApartBy start o.base_addr (end_addr o) out ws wo (omega arith) h later)
              (emit_free-IsApartBy start o.base_addr stop out ws wo (omega arith) h old).1)
    ]

visit_region-IsApartBy :
    (occupied : List MemBlock) (region : MemBlock) (out : List MemBlock)
    → All IsGood occupied
    → IsGood region
    → IsApartBy region.base_addr out
    → IsApartBy (region.base_addr + region.size) (visit_region occupied region out)
unfolding visit_region
visit_region-IsApartBy occupied region out good rg h =
    let (word, end) = end_addr-IsWord region rg in
    let done =
      finish-IsApartBy (end_addr region) region.base_addr occupied out word (omega arith) good h
        (EndsBy-later region.base_addr (end_addr region) out (omega arith) h.1) in
    (done.0, EndsBy-later (end_addr region) (region.base_addr + region.size) _ (omega arith) done.1)

from_IsApartBy :
    (regions occupied out : List MemBlock) (lo : ℕ)
    → All IsGood regions
    → All IsGood occupied
    → IsApart regions
    → All (λ r. lo ≤ r.base_addr) regions
    → IsApartBy lo out
    → IsApart (emit_free_aligned_mem_blocks regions occupied out)
unfolding emit_free_aligned_mem_blocks
from_IsApartBy [] occupied out lo rs good apart above h = h.0
from_IsApartBy (r ∷ regions) occupied out lo rs good apart above h =
    from_IsApartBy regions occupied (visit_region occupied r out) (r.base_addr + r.size) rs.1 good
      apart.1 apart.0
      (visit_region-IsApartBy occupied r out good rs.0
        (h.0, EndsBy-later lo r.base_addr out above.0 h.1))

-- Of word-aligned regions in address order that share no byte, and word-aligned occupied blocks in any
-- order, none of which wraps round the end of the address space, the blocks that are written are in
-- address order and share no byte.
pub emit_free_aligned_mem_blocks-IsApart :
    (regions occupied : List MemBlock)
    → All IsGood regions
    → All IsGood occupied
    → IsApart regions
    → IsApart (emit_free_aligned_mem_blocks regions occupied [])
emit_free_aligned_mem_blocks-IsApart regions occupied rs good apart =
    from_IsApartBy regions occupied [] 0 rs good apart (any regions) (tt, tt)
  where
    any : (bs : List MemBlock) → All (λ r. 0 ≤ r.base_addr) bs
    any [] = tt
    any (b ∷ bs) = (omega arith, any bs)
