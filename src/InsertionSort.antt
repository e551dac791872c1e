-- ===== src/InsertionSort.antt =====
-- `InsertionSort` of kernel/src/lib/c_lib.c: it sorts elements of any size in an array of bytes, by the
-- `memcpy` of the C library that the kernel is linked with.
pub mod Elements
pub mod Loop
pub mod Order
pub mod Stability
pub mod Standard
use quakernel.Base.{
  ℕ, zero, suc, ◌+◌, ◌-◌, ◌^◌, ◌≡◌, Bool, true, false, List, [], ◌∷◌, ◌++◌, length, take, drop, ltb,
  if◌then◌else◌, mul64,
}
use quakernel.Base.Int.{ℤ, pos, negsuc}
use quakernel.Base.Exec.{Exec, Outcome, halted, pure}

-- `memcpy`, on the array that is written to, the offset in it, and the bytes that are read. What ISO C
-- promises of arrays that do not overlap: these bytes are replaced, and no others.
pub record MemLib : Type 0 where
  pub memcpy : List ℕ → ℕ → List ℕ → List ℕ
  pub memcpy_lem :
      (before old after new : List ℕ)
      → length old ≡ length new
      → memcpy (before ++ (old ++ after)) (length before) new ≡ before ++ (new ++ after)

-- `n` bytes of an array from an offset on.
abbrev pub slice : List ℕ → ℕ → ℕ → List ℕ
slice bytes offset n = take n (drop offset bytes)

-- `result > 0`
abbrev pub is_positive : ℤ → Bool
is_positive (pos zero) = false
is_positive (pos (suc n)) = true
is_positive (negsuc n) = false

module _ (lib : MemLib) (elem_size : ℕ) (compare_func : List ℕ → List ℕ → ℤ) where
  open lib use {memcpy}

  -- `arrayBase + i * elemSize`, as an offset.
  abbrev pub offset : ℕ → ℕ
  offset i = mul64 i elem_size

  abbrev pub element : List ℕ → ℕ → List ℕ
  element array i = slice array (offset i) elem_size

  -- The inner loop, with `j + 1` in place of the signed `j`, from a `j` that is not negative or is
  -- -1: elements greater than the key move up by one place. The result holds the place that has
  -- become free.
  pub shift : ℕ → List ℕ → List ℕ → List ℕ × ℕ
  shift zero key array = (array, zero)
  shift (suc j) key array =
      let rest = shift j key (memcpy array (offset (suc j)) (element array j)) in
      if is_positive (compare_func (element array j) (slice key 0 elem_size))
      then rest
      else (array, suc j)

  pub put_key : List ℕ → List ℕ × ℕ → List ℕ
  put_key key (array, free) = memcpy array (offset free) (slice key 0 elem_size)

  -- `int64_t j = i - 1` and the inner loop: from `2 ^ 63 + 1` on `j` becomes negative, and the loop
  -- does not run.
  shift_from : ℕ → List ℕ → List ℕ → List ℕ × ℕ
  shift_from i key array = if ltb (2 ^ 63) i then (array, i) else shift i key array

  -- One round of the outer loop, on the array and the buffer `key`.
  pub insert_element : ℕ → List ℕ × List ℕ → List ℕ × List ℕ
  insert_element i (array, key) =
      let key' = memcpy key 0 (element array i) in (put_key key' (shift_from i key' array), key')

  pub insert_from : (rounds i : ℕ) → List ℕ × List ℕ → List ℕ × List ℕ
  insert_from zero i state = state
  insert_from (suc rounds) i state = insert_from rounds (suc i) (insert_element i state)

  -- `InsertionSort`. The buffer `key` holds 256 bytes that were never written. An element that does
  -- not fit in it stops the machine.
  pub insertion_sort : List ℕ → List ℕ → ℕ → {S : Type 0} → Exec S (List ℕ)
  insertion_sort key array elem_count =
      if ltb 256 elem_size then halted else pure (insert_from (elem_count - 1) 1 (array, key)).0
