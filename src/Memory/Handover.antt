-- ===== src/Memory/Handover.antt =====
-- From the firmware's blocks to memory that can be handed out: the occupied blocks are sorted with
-- `InsertionSort`, `QKEmitFreeAlignedMemBlocks` computes the free ones, and a linear arena stands on
-- one of these (kernel/src/memory, kernel/src/lib/c_lib.c).
use mathlib.Core.HLevel.{⊥_prop}
use mathlib.Core.Logic.Or
use mathlib.Core.List.{Perm, Mem, mem-cons, mem-cons_self, mem-cons_of_mem, not-mem-nil}
use mathlib.Core.List.Perm
use native.Mathlib.Bridge.{le_prop}
use quakernel.Base.{ℕ, ◌*◌, ◌^◌, ◌<◌, ◌≡◌, ◌↔◌, sym, subst, inl, inr, List, [], ◌∷◌, All, length}
use quakernel.Base.Exec.{returned}
use quakernel.InsertionSort.{MemLib, insertion_sort}
use quakernel.InsertionSort.Elements.{join, HasSize}
use quakernel.Memory.Block.{MemBlock, Contains, Covers, IsSortedByAddr}
use quakernel.Memory.Sorting.{block_of, blocks_of, compare_stored, insertion_sort-IsSortedByAddr}
use quakernel.Memory.FreeBlocks.{emit_free_aligned_mem_blocks}
use quakernel.Memory.FreeBlocks.Coverage.{IsGood, emit_free_aligned_mem_blocks-Covers}

IsGood-prop : (b : MemBlock) → IsProp (IsGood b)
IsGood-prop b = hlevel (le_prop)

-- A stored block that contains the address, out of those that cover it.
covering :
    (es : List (List ℕ)) (a : ℕ)
    → Covers (blocks_of es) a
    → (e : List ℕ) × Mem e es × Contains a (block_of e)
covering [] a c = elim c [ ]
covering (e ∷ es) a (inl c) = (e, mem-cons_self, c)
covering (e ∷ es) a (inr c) = let (e', m, c') = covering es a c in (e', mem-cons_of_mem e m, c')

Mem-Covers :
    (es : List (List ℕ)) (e : List ℕ) (a : ℕ)
    → Mem e es
    → Contains a (block_of e)
    → ¬ (¬ Covers (blocks_of es) a)
Mem-Covers [] e a m c none = not-mem-nil m
Mem-Covers (x ∷ es) e a m c none =
    Or.elim ⊥_prop (mem-cons.0 m) (λ same. none (inl (subst (λ x. Contains a (block_of x)) same c)))
      (λ later. Mem-Covers es e a later c (λ q. none (inr q)))

-- The order of the stored blocks does not matter to what they leave uncovered, nor to their form.
Perm-Covers :
    (es fs : List (List ℕ)) (a : ℕ)
    → Perm es fs
    → ¬ Covers (blocks_of es) a
    → ¬ Covers (blocks_of fs) a
Perm-Covers es fs a p none c =
    let (e, m, at) = covering fs a c in Mem-Covers es e a ((Perm.mem_iff p).1 m) at none

Mem-IsGood :
    (es : List (List ℕ)) (e : List ℕ) → All IsGood (blocks_of es) → Mem e es → IsGood (block_of e)
Mem-IsGood [] e h m = absurd (not-mem-nil m)
Mem-IsGood (x ∷ es) e h m =
    Or.elim (IsGood-prop (block_of e)) (mem-cons.0 m)
      (λ same. subst (λ x. IsGood (block_of x)) (sym same) h.0) (Mem-IsGood es e h.1)

All-IsGood :
    (es : List (List ℕ))
    → ((e : List ℕ) → Mem e es → IsGood (block_of e))
    → All IsGood (blocks_of es)
All-IsGood [] h = tt
All-IsGood (e ∷ es) h = (h e mem-cons_self, All-IsGood es (λ f m. h f (mem-cons_of_mem e m)))

-- An array of occupied blocks, sorted with `MemCompareBlocksByAddr`: the blocks are in address order,
-- as good as before, and leave the same bytes uncovered.
pub insertion_sort-occupied :
    {S : Type 0} (lib : MemLib) (es : List (List ℕ)) (buffer : List ℕ) (s : S)
    → length buffer ≡ 256
    → All (HasSize 16) es
    → length es * 16 < 2 ^ 64
    → All IsGood (blocks_of es)
    → (sorted : List (List ℕ)) × (insertion_sort lib 16 compare_stored buffer
          (join es)
          (length es)
          s
        ≡ returned (join sorted) s)
      × IsSortedByAddr (blocks_of sorted)
      × All IsGood (blocks_of sorted)
      × ((a : ℕ) → (¬ Covers (blocks_of sorted) a) ↔ (¬ Covers (blocks_of es) a))
insertion_sort-occupied lib es buffer s hb h fits good =
    let (sorted, run', up, perm) = insertion_sort-IsSortedByAddr lib es buffer s hb h fits in
    (
      sorted,
      run',
      up,
      All-IsGood sorted (λ f m. Mem-IsGood es f good ((Perm.mem_iff perm).0 m)),
      λ a. (Perm-Covers sorted es a perm, Perm-Covers es sorted a (Perm.symm perm)),
    )

-- An array of occupied blocks in any order, all of them word-aligned and none wrapping round the end
-- of the address space, is sorted with `MemCompareBlocksByAddr`; then the free blocks that are computed
-- from word-aligned regions and the sorted array cover exactly the bytes that some region contains and
-- none of the occupied blocks does.
pub insertion_sort-emit_free_aligned_mem_blocks :
    {S : Type 0} (lib : MemLib) (es : List (List ℕ)) (buffer : List ℕ) (s : S)
    (regions : List MemBlock)
    → length buffer ≡ 256
    → All (HasSize 16) es
    → length es * 16 < 2 ^ 64
    → All IsGood (blocks_of es)
    → All IsGood regions
    → (sorted : List (List ℕ)) × (insertion_sort lib 16 compare_stored buffer
          (join es)
          (length es)
          s
        ≡ returned (join sorted) s)
      × ((a : ℕ)
          → Covers (emit_free_aligned_mem_blocks regions (blocks_of sorted) []) a
            ↔ (Covers regions a × (¬ Covers (blocks_of es) a)))
insertion_sort-emit_free_aligned_mem_blocks lib es buffer s regions hb h fits good rs =
    let (sorted, run', up, good', same) = insertion_sort-occupied lib es buffer s hb h fits good in
    let covers =
      λ (a : ℕ). emit_free_aligned_mem_blocks-Covers regions (blocks_of sorted) [] a rs good' up in
    (
      sorted,
      run',
      λ a. (
        λ c. elim ((covers a).0 c) [
          | inl none ↦ absurd none
          | inr free ↦ (free.0, (same a).0 free.1)
        ],
        λ free. (covers a).1 (inr (free.0, (same a).1 free.1)),
      ),
    )
