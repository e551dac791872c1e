-- ===== src/Tests/Sorting.antt =====
-- The sort on single bytes.
use quakernel.Base.{ℕ, ◌≡◌, arith, List, [], ◌∷◌, ltb, if◌then◌else◌}
use mathlib.Core.List.{Perm}
use quakernel.Base.Int.{ℤ, pos}
use quakernel.Base.Exec.{returned}
use quakernel.InsertionSort.{insertion_sort}
use quakernel.InsertionSort.Elements.{join, rev_onto}
use quakernel.InsertionSort.Loop.{insert_all, insertion_sort_lem}
use quakernel.InsertionSort.Stability.{equals_of, insertion_sort_stable}
use quakernel.InsertionSort.Order.{IsOrder, IsAscending}
use quakernel.InsertionSort.Standard.{standard}

first : List ℕ → ℕ
first [] = 0
first (b ∷ bytes) = b

compare_bytes : List ℕ → List ℕ → ℤ
compare_bytes a b = if ltb (first b) (first a) then pos 1 else pos 0

compare_bytes-IsOrder : IsOrder compare_bytes
unfolding compare_bytes
compare_bytes-IsOrder = record { asym = λ a b h. ground arith; trans = λ a b c p q. ground arith }

abbrev pub zeros : ℕ → List ℕ
zeros ℕ.zero = []
zeros (ℕ.suc n) = 0 ∷ zeros n

-- A block of 4 KiB at `page * 2 ^ 8`.
abbrev pub stored_block : ℕ → List ℕ
stored_block page = 0 ∷ page ∷ 0 ∷ 0 ∷ 0 ∷ 0 ∷ 0 ∷ 0 ∷ 0 ∷ 16 ∷ 0 ∷ 0 ∷ 0 ∷ 0 ∷ 0 ∷ 0 ∷ []

-- Pairs of bytes that are compared by the first one.
insertion_sort_stable_example :
    (sorted : List (List ℕ)) × (insertion_sort standard 2 compare_bytes
        (zeros 256)
        (join ((3 ∷ 1 ∷ []) ∷ (1 ∷ 2 ∷ []) ∷ (3 ∷ 3 ∷ []) ∷ []))
        3
        tt
      ≡ returned (join sorted) tt)
    × IsAscending compare_bytes sorted
    × Perm sorted ((3 ∷ 1 ∷ []) ∷ (1 ∷ 2 ∷ []) ∷ (3 ∷ 3 ∷ []) ∷ [])
    × ((k : List ℕ)
        → equals_of compare_bytes k sorted
          ≡ equals_of compare_bytes k ((3 ∷ 1 ∷ []) ∷ (1 ∷ 2 ∷ []) ∷ (3 ∷ 3 ∷ []) ∷ []))
insertion_sort_stable_example =
    insertion_sort_stable compare_bytes {S = Unit {0}} standard 2
      ((3 ∷ 1 ∷ []) ∷ (1 ∷ 2 ∷ []) ∷ (3 ∷ 3 ∷ []) ∷ []) (zeros 256) tt compare_bytes-IsOrder
      (omega arith) (omega arith) (omega arith) (omega arith) (omega arith)

insertion_sort_lem_example :
    insertion_sort standard 2 compare_bytes
      (zeros 256)
      (join ((3 ∷ 1 ∷ []) ∷ (1 ∷ 2 ∷ []) ∷ []))
      2
      tt
    ≡ returned
        (join (rev_onto (insert_all compare_bytes ((3 ∷ 1 ∷ []) ∷ (1 ∷ 2 ∷ []) ∷ []) []) []))
        tt
insertion_sort_lem_example =
    insertion_sort_lem standard 2 compare_bytes {S = Unit {0}} ((3 ∷ 1 ∷ []) ∷ (1 ∷ 2 ∷ []) ∷ [])
      (zeros 256) tt (omega arith) (omega arith) (omega arith) (omega arith) (omega arith)
