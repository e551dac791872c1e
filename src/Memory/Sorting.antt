-- ===== src/Memory/Sorting.antt =====
-- An array of `mem_block_t` that `InsertionSort` (kernel/src/lib/c_lib.c) sorts with
-- `MemCompareBlocksByAddr` (kernel/src/memory/memory.h): what `QKEmitFreeAlignedMemBlocks` asks of its
-- occupied blocks.
use quakernel.Base.{
  ℕ, ◌+◌, ◌*◌, ◌^◌, ◌≤◌, ◌<◌, ◌≡◌, true, false, arith, List, [], ◌∷◌, All, length, take, drop,
}
use mathlib.Core.List.{Perm}
use quakernel.Base.Int.{ℤ}
use quakernel.Base.Exec.{returned}
use quakernel.InsertionSort.{MemLib, is_positive, insertion_sort}
use quakernel.InsertionSort.Elements.{join, HasSize}
use quakernel.InsertionSort.Order.{IsOrder, IsAscending, NotAbove}
use quakernel.InsertionSort.Stability.{insertion_sort_stable}
use quakernel.Memory.Block.{MemBlock, compare_blocks_by_addr, IsSortedByAddr}

-- A number in memory, its low byte first.
abbrev word : List ℕ → ℕ
word [] = 0
word (b ∷ bytes) = b + 2 ^ 8 * word bytes

-- The block in the 16 bytes of a `mem_block_t`.
unfoldable pub block_of : List ℕ → MemBlock
block_of bytes = record { base_addr = word (take 8 bytes); size = word (take 8 (drop 8 bytes)) }

abbrev pub blocks_of : List (List ℕ) → List MemBlock
blocks_of [] = []
blocks_of (e ∷ es) = block_of e ∷ blocks_of es

-- The comparison function that the sort calls: on two pointers to blocks.
pub compare_stored : List ℕ → List ℕ → ℤ
compare_stored a b = compare_blocks_by_addr (block_of a) (block_of b)

compare_above :
    (a b : MemBlock) → is_positive (compare_blocks_by_addr a b) ≡ true → b.base_addr < a.base_addr
unfolding compare_blocks_by_addr
compare_above a b h = ground arith

compare_not_above :
    (a b : MemBlock) → is_positive (compare_blocks_by_addr a b) ≡ false → a.base_addr ≤ b.base_addr
unfolding compare_blocks_by_addr
compare_not_above a b h = ground arith

compare_le :
    (a b : MemBlock) → a.base_addr ≤ b.base_addr → is_positive (compare_blocks_by_addr a b) ≡ false
unfolding compare_blocks_by_addr
compare_le a b h = ground arith

compare_stored-IsOrder : IsOrder compare_stored
unfolding compare_stored
compare_stored-IsOrder = record {
  asym = λ a b h.
      compare_le (block_of b) (block_of a)
        (omega (arith, compare_above (block_of a) (block_of b) h));
  trans = λ a b c p q. compare_le (block_of a) (block_of c) (
      omega (
        arith,
        compare_not_above (block_of a) (block_of b) p,
        compare_not_above (block_of b) (block_of c) q,
      ));
}

stored_below :
    (x : List ℕ) (xs : List (List ℕ))
    → All (NotAbove compare_stored x) xs
    → All (λ c. (block_of x).base_addr ≤ c.base_addr) (blocks_of xs)
unfolding compare_stored
stored_below x [] h = tt
stored_below x (y ∷ ys) h = (compare_not_above (block_of x) (block_of y) h.0, stored_below x ys h.1)

ascending-IsSortedByAddr :
    (es : List (List ℕ)) → IsAscending compare_stored es → IsSortedByAddr (blocks_of es)
ascending-IsSortedByAddr [] h = tt
ascending-IsSortedByAddr (e ∷ es) h = (stored_below e es h.0, ascending-IsSortedByAddr es h.1)

-- Sorted with `MemCompareBlocksByAddr`, an array of blocks, which lies in the address space, becomes an
-- array of the same blocks, each as often, in the order of their addresses.
pub insertion_sort-IsSortedByAddr :
    {S : Type 0} (lib : MemLib) (es : List (List ℕ)) (buffer : List ℕ) (s : S)
    → length buffer ≡ 256
    → All (HasSize 16) es
    → length es * 16 < 2 ^ 64
    → (sorted : List (List ℕ)) × (insertion_sort lib 16 compare_stored buffer
          (join es)
          (length es)
          s
        ≡ returned (join sorted) s)
      × IsSortedByAddr (blocks_of sorted)
      × Perm sorted es
insertion_sort-IsSortedByAddr lib es buffer s hb h fits =
    let (sorted, run, up, perm, _) =
      insertion_sort_stable compare_stored lib 16 es buffer s compare_stored-IsOrder hb
        (omega arith) h fits (omega arith) in
    (sorted, run, ascending-IsSortedByAddr sorted up, perm)
