-- ===== src/InsertionSort/Elements.antt =====
-- Arrays of elements as bytes: reading and writing an element.
use quakernel.Base.{
  ℕ, zero, suc, ◌*◌, ◌≤◌, ◌≡◌, refl, ap, ◌∙◌, sym, arith, List, [], ◌∷◌, ◌++◌, All, length,
  length-append, take, drop,
}
use mathlib.Core.List.{append_assoc, append-nil}
use quakernel.InsertionSort.{MemLib, slice}

-- The bytes of a list of elements.
abbrev pub join : List (List ℕ) → List ℕ
join [] = []
join (e ∷ es) = e ++ join es

-- The elements of the first list in reverse order, before those of the second.
abbrev pub rev_onto {ℓ} : {A : Type ℓ} → List A → List A → List A
rev_onto [] ys = ys
rev_onto (x ∷ xs) ys = rev_onto xs (x ∷ ys)

abbrev pub HasSize : ℕ → List ℕ → Type 0
HasSize n e = length e ≡ n

pub take-append : (a b : List ℕ) (n : ℕ) → length a ≡ n → take n (a ++ b) ≡ a
take-append [] b zero h = refl
take-append [] b (suc n) h = absurd (omega arith)
take-append (x ∷ a) b zero h = absurd (omega arith)
take-append (x ∷ a) b (suc n) h = ap (◌∷◌ x) (take-append a b n (omega arith))

drop-append : (a b : List ℕ) → drop (length a) (a ++ b) ≡ b
drop-append [] b = refl
drop-append (x ∷ a) b = drop-append a b

pub take-append-drop : (n : ℕ) (a : List ℕ) → take n a ++ drop n a ≡ a
take-append-drop zero a = refl
take-append-drop (suc n) [] = refl
take-append-drop (suc n) (x ∷ a) = ap (◌∷◌ x) (take-append-drop n a)

pub length-take : (n : ℕ) (a : List ℕ) → n ≤ length a → length (take n a) ≡ n
length-take zero a h = refl
length-take (suc n) [] h = absurd (omega arith)
length-take (suc n) (x ∷ a) h = omega (arith, length-take n a)

module _ (n : ℕ) where
  length-join : (es : List (List ℕ)) → All (HasSize n) es → length (join es) ≡ length es * n
  length-join [] h = omega arith
  length-join (e ∷ es) h = omega (arith, length-append e (join es), length-join es h.1)

  -- The bytes of the part that has been passed.
  abbrev passed : List (List ℕ) → List ℕ
  passed rs = join (rev_onto rs [])

  join-rev_onto : (rs ys : List (List ℕ)) → join (rev_onto rs ys) ≡ passed rs ++ join ys
  join-rev_onto [] ys = refl
  join-rev_onto (r ∷ rs) ys =
      rw (join-rev_onto rs (r ∷ ys), join-rev_onto rs (r ∷ []), append-nil r, append_assoc) refl

  length-passed : (rs : List (List ℕ)) → All (HasSize n) rs → length (passed rs) ≡ length rs * n
  length-passed [] h = omega arith
  length-passed (r ∷ rs) h =
      rw (join-rev_onto rs (r ∷ []), append-nil r)
        (omega (arith, length-append (passed rs) r, length-passed rs h.1))

  -- The element behind the part that has been passed.
  pub slice-join :
      (rs : List (List ℕ)) (e : List ℕ) (ys : List (List ℕ))
      → All (HasSize n) rs
      → length e ≡ n
      → slice (join (rev_onto rs (e ∷ ys))) (length rs * n) n ≡ e
  slice-join rs e ys h he =
      rw (join-rev_onto rs (e ∷ ys), ← length-passed rs h, drop-append)
        (take-append e (join ys) n he)

  pub memcpy-join :
      (lib : MemLib) (rs : List (List ℕ)) (old new : List ℕ) (ys : List (List ℕ))
      → All (HasSize n) rs
      → length old ≡ n
      → length new ≡ n
      → lib.memcpy (join (rev_onto rs (old ∷ ys))) (length rs * n) new
        ≡ join (rev_onto rs (new ∷ ys))
  memcpy-join lib rs old new ys h ho hn =
      rw (join-rev_onto rs (old ∷ ys), join-rev_onto rs (new ∷ ys), ← length-passed rs h)
        (lib.memcpy_lem (passed rs) old (join ys) new (ho ∙ sym hn))
