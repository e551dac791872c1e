-- ===== src/Memory/Arenas.antt =====
-- An arena on every free block (kernel/src/memory): what all of them together hand out.
use quakernel.Base.{
  length, ◌*◌, ℕ, ◌+◌, ◌-◌, ◌^◌, ◌≤◌, ◌<◌, ◌≡◌, arith, inl, inr, List, [], ◌∷◌, ◌++◌, All,
  All-append, All-map, All-zip,
}
use quakernel.Base.Exec.{returned}
use quakernel.InsertionSort.{MemLib, insertion_sort}
use quakernel.InsertionSort.Elements.{join, HasSize}
use quakernel.Memory.Sorting.{blocks_of, compare_stored}
use quakernel.Memory.Handover.{insertion_sort-occupied}
use quakernel.Memory.Block.{MemBlock, Contains, Covers, IsSortedByAddr}
use quakernel.Memory.FreeBlocks.{emit_free_aligned_mem_blocks}
use quakernel.Memory.FreeBlocks.Coverage.{IsGood}
use quakernel.Memory.FreeBlocks.Soundness.{
  BeginsOnWord, EndsOnWord, emit_free_aligned_mem_blocks_sound,
}
use quakernel.Memory.FreeBlocks.Shape.{IsWordBlock, emit_free_aligned_mem_blocks-IsWordBlock}
use quakernel.Memory.FreeBlocks.Apart.{IsApart, emit_free_aligned_mem_blocks-IsApart}
use quakernel.Memory.Arena.Laws.{Op, IsModest, Disjoint, AllDisjoint, Within, run, start, run_safe}

-- The block lies in the lower half of the address space, as physical memory does.
abbrev pub IsLow : MemBlock → Type 0
IsLow b = b.base_addr + b.size < 2 ^ 63

-- The ranges that are live in arenas on the blocks, after the calls that are made on each. The calls
-- are given by the block.
abbrev pub all_live : (MemBlock → List Op) → List MemBlock → List MemBlock
all_live calls [] = []
all_live calls (b ∷ bs) = (run (start b) (calls b)).live ++ all_live calls bs

-- What holds of every covered byte holds of the bytes of each block.
All-Covers :
    (R : ℕ → Type 0) (bs : List MemBlock)
    → ((a : ℕ) → Covers bs a → R a)
    → All (λ b. (a : ℕ) → Contains a b → R a) bs
All-Covers R [] h = tt
All-Covers R (b ∷ bs) h = (λ a c. h a (inl c), All-Covers R bs (λ a c. h a (inr c)))

AllDisjoint-append :
    (xs ys : List MemBlock)
    → AllDisjoint xs
    → AllDisjoint ys
    → All (λ x. All (Disjoint x) ys) xs
    → AllDisjoint (xs ++ ys)
AllDisjoint-append [] ys hx hy across = hy
AllDisjoint-append (x ∷ xs) ys hx hy across =
    (All-append _ xs ys hx.0 across.0, AllDisjoint-append xs ys hx.1 hy across.1)

-- A byte of regions in the lower half is in the lower half.
covered_low :
    (regions : List MemBlock) (a : ℕ) → All IsLow regions → Covers regions a → a + 1 < 2 ^ 63
covered_low [] a h c = elim c [ ]
covered_low (r ∷ regions) a h (inl c) = omega arith
covered_low (r ∷ regions) a h (inr c) = covered_low regions a h.1 c

module _ (calls : MemBlock → List Op) (modest : (b : MemBlock) → All IsModest (calls b)) where
  -- What the arena on one block hands out.
  block_live :
      (b : MemBlock)
      → IsLow b
      → let live = (run (start b) (calls b)).live in All (Within b) live × AllDisjoint live
  block_live b h = run_safe b (omega arith) (omega arith) (calls b) (modest b)

  -- A property of the bytes of every block is one of the bytes of every range.
  all_live-bytes :
      (R : ℕ → Type 0) (bs : List MemBlock)
      → All (λ b. IsLow b) bs
      → All (λ b. (a : ℕ) → Contains a b → R a) bs
      → All (λ r. (a : ℕ) → Contains a r → R a) (all_live calls bs)
  all_live-bytes R [] ok h = tt
  all_live-bytes R (b ∷ bs) ok h =
      All-append _ _ (all_live calls bs)
        (All-map _ _ (λ r w a c. h.0 a (omega arith)) _ (block_live b ok.0).0)
        (all_live-bytes R bs ok.1 h.1)

  all_live-above :
      (lo : ℕ) (bs : List MemBlock)
      → All (λ b. IsLow b) bs
      → All (λ b. lo ≤ b.base_addr) bs
      → All (λ r. lo ≤ r.base_addr) (all_live calls bs)
  all_live-above lo [] ok h = tt
  all_live-above lo (b ∷ bs) ok h =
      All-append _ _ (all_live calls bs)
        (All-map _ _ (λ r w. omega (arith, h.0)) _ (block_live b ok.0).0)
        (all_live-above lo bs ok.1 h.1)

  all_live-AllDisjoint :
      (bs : List MemBlock) → All (λ b. IsLow b) bs → IsApart bs → AllDisjoint (all_live calls bs)
  all_live-AllDisjoint [] ok apart = tt
  all_live-AllDisjoint (b ∷ bs) ok apart =
      let (within, disjoint) = block_live b ok.0 in
      let above = all_live-above (b.base_addr + b.size) bs ok.1 apart.0 in
      AllDisjoint-append _ (all_live calls bs) disjoint (all_live-AllDisjoint bs ok.1 apart.1) (
        All-map (Within b) (λ r. All (Disjoint r) (all_live calls bs))
          (λ r w. All-map _ (Disjoint r) (λ r' e. inl (omega arith)) (all_live calls bs) above) _
          within)

module _ (regions occupied : List MemBlock) (rs : All BeginsOnWord regions)
    (good : All EndsOnWord occupied) (sorted : IsSortedByAddr occupied) where
  abbrev IsVacant : ℕ → Type 0
  IsVacant a = Covers regions a × (¬ Covers occupied a)

  -- The bytes of every free block are those of a region, and none of an occupied block.
  emit-IsVacant :
      All
        (λ b. (a : ℕ) → Contains a b → IsVacant a)
        (emit_free_aligned_mem_blocks regions occupied [])
  emit-IsVacant = All-Covers IsVacant (emit_free_aligned_mem_blocks regions occupied []) λ a c.
      elim (emit_free_aligned_mem_blocks_sound regions occupied [] a rs good sorted c) [
        | inl none ↦ absurd none
        | inr free ↦ free
      ]

  emit-IsLow : All IsLow regions → All IsLow (emit_free_aligned_mem_blocks regions occupied [])
  emit-IsLow low =
      let free = emit_free_aligned_mem_blocks regions occupied [] in
      let words = emit_free_aligned_mem_blocks-IsWordBlock regions occupied [] tt in
      All-map _ IsLow
        (λ b h. omega (
          arith,
          covered_low regions (b.base_addr + b.size - 1) low
              (h.1 (b.base_addr + b.size - 1) (omega arith)).0,
        ))
        free
        (All-zip IsWordBlock (λ b. (a : ℕ) → Contains a b → IsVacant a) free words emit-IsVacant)

-- From occupied blocks that are in address order already, no byte is handed out twice and none that is
-- not free.
pub all_live-free :
    (regions occupied : List MemBlock) (calls : MemBlock → List Op)
    → All IsGood regions
    → All IsLow regions
    → IsApart regions
    → All IsGood occupied
    → IsSortedByAddr occupied
    → ((b : MemBlock) → All IsModest (calls b))
    → let handed_out = all_live calls (emit_free_aligned_mem_blocks regions occupied []) in
      All (λ r. (a : ℕ) → Contains a r → Covers regions a × (¬ Covers occupied a)) handed_out
      × AllDisjoint handed_out
all_live-free regions occupied calls rs low apart good sorted modest =
    let free = emit_free_aligned_mem_blocks regions occupied [] in
    let begins = All-map IsGood BeginsOnWord (λ b h. omega arith) regions rs in
    let ends = All-map IsGood EndsOnWord (λ b h. omega arith) occupied good in
    let ok = emit-IsLow regions occupied begins ends sorted low in
    (
      all_live-bytes calls modest (λ a. Covers regions a × (¬ Covers occupied a)) free ok
          (emit-IsVacant regions occupied begins ends sorted),
      all_live-AllDisjoint calls modest free ok
          (emit_free_aligned_mem_blocks-IsApart regions occupied rs good apart),
    )

-- An array of occupied blocks in any order, all of them word-aligned and inside the address space, is
-- sorted with `MemCompareBlocksByAddr`; the free blocks of the regions are computed from it; and on
-- each free block an arena is made, on which any calls follow, each request of at most half the
-- address space. The regions are word-aligned, in the lower half of the address space, in address
-- order, and share no byte. Then every byte that is handed out is one of a region and of no occupied
-- block, and no byte is handed out twice, neither by one arena between two resets nor by two arenas.
pub all_live-insertion_sort :
    {S : Type 0} (lib : MemLib) (es : List (List ℕ)) (buffer : List ℕ) (s : S)
    (regions : List MemBlock) (calls : MemBlock → List Op)
    → length buffer ≡ 256
    → All (HasSize 16) es
    → length es * 16 < 2 ^ 64
    → All IsGood (blocks_of es)
    → All IsGood regions
    → All IsLow regions
    → IsApart regions
    → ((b : MemBlock) → All IsModest (calls b))
    → (sorted : List (List ℕ)) × (insertion_sort lib 16 compare_stored buffer
          (join es)
          (length es)
          s
        ≡ returned (join sorted) s)
      × (let handed_out =
            all_live calls (emit_free_aligned_mem_blocks regions (blocks_of sorted) []) in
          All
            (λ r. (a : ℕ) → Contains a r → Covers regions a × (¬ Covers (blocks_of es) a))
            handed_out
          × AllDisjoint handed_out)
all_live-insertion_sort lib es buffer s regions calls hb h fits good rs low apart modest =
    let (sorted, run', up, good', same) = insertion_sort-occupied lib es buffer s hb h fits good in
    let (bytes, disjoint) =
      all_live-free regions (blocks_of sorted) calls rs low apart good' up modest in
    (
      sorted,
      run',
      (All-map _ _ (λ r f a c. let free = f a c in (free.0, (same a).0 free.1)) _ bytes, disjoint),
    )
