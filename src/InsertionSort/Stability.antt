-- ===== src/InsertionSort/Stability.antt =====
-- Insertion keeps the order of elements that compare equal.
use quakernel.Base.{
  ℕ, ◌*◌, ◌≤◌, ◌<◌, ◌^◌, ◌≡◌, refl, ap, sym, ◌∙◌, arith, Bool, true, false, ◌&&◌, not, Bool-cases,
  inl, inr, List, [], ◌∷◌, ◌++◌, All, length, if◌then◌else◌,
}
use mathlib.Core.List.{append-nil, Perm}
use quakernel.Base.Int.{ℤ}
use quakernel.Base.Exec.{returned}
use quakernel.InsertionSort.{MemLib, is_positive, insertion_sort}
use quakernel.InsertionSort.Elements.{join, rev_onto, HasSize}
use quakernel.InsertionSort.Loop.{insert, insert_all, insertion_sort_lem}
use quakernel.InsertionSort.Order.{
  IsOrder, IsAscending, sorted_of, sorted_of-IsAscending, sorted_of-perm,
}

rev_onto-rev_onto {ℓ} :
    {A : Type ℓ} (xs ys zs : List A) → rev_onto (rev_onto xs ys) zs ≡ rev_onto ys (xs ++ zs)
rev_onto-rev_onto [] ys zs = refl
rev_onto-rev_onto (x ∷ xs) ys zs = rev_onto-rev_onto xs (x ∷ ys) zs

module _ (compare_func : List ℕ → List ℕ → ℤ) where
  -- Neither is greater than the other.
  pub compares_equal : List ℕ → List ℕ → Bool
  compares_equal a b = not (is_positive (compare_func a b)) && not (is_positive (compare_func b a))

  -- The elements that compare equal to one, in their order.
  pub equals_of : List ℕ → List (List ℕ) → List (List ℕ)
  equals_of k [] = []
  equals_of k (x ∷ xs) = if compares_equal k x then x ∷ equals_of k xs else equals_of k xs

  equals_of-rev_onto :
      (k : List ℕ) (xs ys : List (List ℕ))
      → equals_of k (rev_onto xs ys) ≡ rev_onto (equals_of k xs) (equals_of k ys)
  unfolding equals_of
  equals_of-rev_onto k [] ys = refl
  equals_of-rev_onto k (x ∷ xs) ys = elim (Bool-cases (compares_equal k x)) [
    | inl same ↦ rw same (equals_of-rev_onto k xs (x ∷ ys) ∙ rw same)
    | inr other ↦ rw other (equals_of-rev_onto k xs (x ∷ ys) ∙ rw other)
  ]

  module _ (order : IsOrder compare_func) where
    -- An element that is passed does not compare equal to what the key does.
    passed_differs :
        (k key r : List ℕ)
        → is_positive (compare_func r key) ≡ true
        → compares_equal k key ≡ true
        → compares_equal k r ≡ false
    unfolding compares_equal
    passed_differs k key r above same = ground (arith, order.trans r k key)

    equals_of-insert :
        (k key : List ℕ) (rs : List (List ℕ))
        → equals_of k (insert compare_func key rs) ≡ equals_of k (key ∷ rs)
    unfolding insert equals_of
    equals_of-insert k key [] = refl
    equals_of-insert k key (r ∷ rs) = elim (Bool-cases (is_positive (compare_func r key))) [
      | inl above ↦
          rw above (ground (arith, equals_of-insert k key rs, passed_differs k key r above))
      | inr stop ↦ rw stop refl
    ]

    equals_of-insert_all :
        (k : List ℕ) (rest rs : List (List ℕ))
        → equals_of k (insert_all compare_func rest rs) ≡ equals_of k (rev_onto rest rs)
    unfolding insert_all
    equals_of-insert_all k [] rs = refl
    equals_of-insert_all k (key ∷ rest) rs =
        equals_of-insert_all k rest (insert compare_func key rs)
        ∙ equals_of-rev_onto k rest (insert compare_func key rs)
        ∙ ap (rev_onto (equals_of k rest)) (equals_of-insert k key rs)
        ∙ sym (equals_of-rev_onto k rest (key ∷ rs))

    equals_of-sorted :
        (k : List ℕ) (es : List (List ℕ)) → equals_of k (sorted_of compare_func es) ≡ equals_of k es
    equals_of-sorted k es =
        equals_of-rev_onto k (insert_all compare_func es []) []
        ∙ ap (λ l. rev_onto l (equals_of k [])) (equals_of-insert_all k es [])
        ∙ sym (equals_of-rev_onto k (rev_onto es []) [])
        ∙ ap (equals_of k) (rev_onto-rev_onto es [] [] ∙ append-nil es)

  -- With a comparison function that orders the elements, an array of at most `2 ^ 63` elements of at
  -- most 256 bytes each, which lies in the address space, becomes the array of an ascending list of
  -- the same elements, each as often; for each element, those that compare equal to it are in the
  -- same order as before.
  pub insertion_sort_stable :
      {S : Type 0} (lib : MemLib) (n : ℕ) (es : List (List ℕ)) (buffer : List ℕ) (s : S)
      → IsOrder compare_func
      → length buffer ≡ 256
      → n ≤ 256
      → All (HasSize n) es
      → length es * n < 2 ^ 64
      → length es ≤ 2 ^ 63
      → (sorted : List (List ℕ)) × (insertion_sort lib n compare_func buffer (join es) (length es) s
          ≡ returned (join sorted) s)
        × IsAscending compare_func sorted
        × Perm sorted es
        × ((k : List ℕ) → equals_of k sorted ≡ equals_of k es)
  insertion_sort_stable lib n es buffer s order hb hn h fits small = (
    sorted_of compare_func es,
    insertion_sort_lem lib n compare_func es buffer s hb hn h fits small,
    sorted_of-IsAscending compare_func es order,
    sorted_of-perm compare_func es,
    λ k. equals_of-sorted order k es,
  )
