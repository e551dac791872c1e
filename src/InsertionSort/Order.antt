-- ===== src/InsertionSort/Order.antt =====
-- Insertion sorts, if the comparison function orders the elements.
use quakernel.Base.{ℕ, ◌≡◌, true, false, Bool-cases, inl, inr, List, [], ◌∷◌, ◌++◌, All, All-map}
use mathlib.Core.List.{Perm, perm_middle, append-nil}
use mathlib.Core.List.Perm
use quakernel.Base.Int.{ℤ}
use quakernel.InsertionSort.{is_positive}
use quakernel.InsertionSort.Elements.{rev_onto}
use quakernel.InsertionSort.Loop.{insert, insert_all}

-- A comparison function of C: of two elements one is not greater than the other, and "not greater" is
-- transitive.
pub record IsOrder (compare_func : List ℕ → List ℕ → ℤ) : Type 0 where
  pub asym :
      (a b : List ℕ)
      → is_positive (compare_func a b) ≡ true
      → is_positive (compare_func b a) ≡ false
  pub trans :
      (a b c : List ℕ)
      → is_positive (compare_func a b) ≡ false
      → is_positive (compare_func b c) ≡ false
      → is_positive (compare_func a c) ≡ false

module _ (compare_func : List ℕ → List ℕ → ℤ) where
  -- `a` is not greater than `b`.
  abbrev pub NotAbove : List ℕ → List ℕ → Type 0
  NotAbove a b = is_positive (compare_func a b) ≡ false

  -- No element is greater than a later one.
  abbrev pub IsAscending : List (List ℕ) → Type 0
  IsAscending [] = Unit
  IsAscending (x ∷ xs) = All (NotAbove x) xs × IsAscending xs

  abbrev IsDescending : List (List ℕ) → Type 0
  IsDescending [] = Unit
  IsDescending (x ∷ xs) = All (λ y. NotAbove y x) xs × IsDescending xs

  insert-perm : (key : List ℕ) (rs : List (List ℕ)) → Perm (insert compare_func key rs) (key ∷ rs)
  unfolding insert
  insert-perm key [] = Perm.rfl
  insert-perm key (r ∷ rs) = elim (Bool-cases (is_positive (compare_func r key))) [
    | inl t ↦ rw t (Perm.trans (Perm.cons r (insert-perm key rs)) (Perm.swap key r rs))
    | inr f ↦ rw f Perm.rfl
  ]

  insert_all-perm : (rest rs : List (List ℕ)) → Perm (insert_all compare_func rest rs) (rest ++ rs)
  unfolding insert_all
  insert_all-perm [] rs = Perm.rfl
  insert_all-perm (key ∷ rest) rs =
      Perm.trans (insert_all-perm rest (insert compare_func key rs))
        (Perm.trans (Perm.append_left rest (insert-perm key rs)) (perm_middle rest rs))

  rev_onto-perm : (rs ys : List (List ℕ)) → Perm (rev_onto rs ys) (rs ++ ys)
  rev_onto-perm [] ys = Perm.rfl
  rev_onto-perm (r ∷ rs) ys = Perm.trans (rev_onto-perm rs (r ∷ ys)) (perm_middle rs ys)

  module _ (order : IsOrder compare_func) where
    insert-below :
        (key b : List ℕ) (rs : List (List ℕ))
        → NotAbove key b
        → All (λ y. NotAbove y b) rs
        → All (λ y. NotAbove y b) (insert compare_func key rs)
    unfolding insert
    insert-below key b [] hk h = (hk, tt)
    insert-below key b (r ∷ rs) hk h = elim (Bool-cases (is_positive (compare_func r key))) [
      | inl t ↦ rw t (h.0, insert-below key b rs hk h.1)
      | inr f ↦ rw f (hk, h)
    ]

    insert-IsDescending :
        (key : List ℕ) (rs : List (List ℕ))
        → IsDescending rs
        → IsDescending (insert compare_func key rs)
    unfolding insert
    insert-IsDescending key [] h = (tt, tt)
    insert-IsDescending key (r ∷ rs) h = elim (Bool-cases (is_positive (compare_func r key))) [
      | inl t ↦
          rw t (insert-below key r rs (order.asym r key t) h.0, insert-IsDescending key rs h.1)
      | inr f ↦ rw f ((f, All-map _ _ (λ y p. order.trans y r key p f) rs h.0), h)
    ]

    insert_all-IsDescending :
        (rest rs : List (List ℕ)) → IsDescending rs → IsDescending (insert_all compare_func rest rs)
    unfolding insert_all
    insert_all-IsDescending [] rs h = h
    insert_all-IsDescending (key ∷ rest) rs h =
        insert_all-IsDescending rest (insert compare_func key rs) (insert-IsDescending key rs h)

    rev_onto-IsAscending :
        (rs ys : List (List ℕ))
        → IsDescending rs
        → IsAscending ys
        → All (λ r. All (NotAbove r) ys) rs
        → IsAscending (rev_onto rs ys)
    rev_onto-IsAscending [] ys h hy below = hy
    rev_onto-IsAscending (r ∷ rs) ys h hy below =
        rev_onto-IsAscending rs (r ∷ ys) h.1 (below.0, hy) (both rs h.0 below.1)
      where
        both :
            (rs : List (List ℕ))
            → All (λ y. NotAbove y r) rs
            → All (λ r. All (NotAbove r) ys) rs
            → All (λ x. All (NotAbove x) (r ∷ ys)) rs
        both [] p q = tt
        both (x ∷ rs) p q = ((p.0, q.0), both rs p.1 q.1)

  -- What the sort makes of the elements.
  abbrev pub sorted_of : List (List ℕ) → List (List ℕ)
  sorted_of es = rev_onto (insert_all compare_func es []) []

  pub sorted_of-IsAscending :
      (es : List (List ℕ)) → IsOrder compare_func → IsAscending (sorted_of es)
  sorted_of-IsAscending es order =
      let down = insert_all compare_func es [] in
      rev_onto-IsAscending order down [] (insert_all-IsDescending order es [] tt) tt (no_bound down)
    where
      no_bound : (rs : List (List ℕ)) → All (λ r. All (NotAbove r) []) rs
      no_bound [] = tt
      no_bound (r ∷ rs) = (tt, no_bound rs)

  -- It loses, adds and doubles nothing.
  pub sorted_of-perm : (es : List (List ℕ)) → Perm (sorted_of es) es
  sorted_of-perm es =
      let reversed : Perm (sorted_of es) (insert_all compare_func es []) =
        rw append-nil at (rev_onto-perm (insert_all compare_func es []) []) in
      Perm.trans reversed (rw append-nil at (insert_all-perm es []))
