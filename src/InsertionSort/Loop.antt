-- ===== src/InsertionSort/Loop.antt =====
-- The loops on bytes do what an insertion into a list of elements does.
use quakernel.Base.{
  ℕ, suc, ◌+◌, ◌-◌, ◌*◌, ◌≤◌, ◌<◌, ◌^◌, ◌≡◌, refl, ap, subst, ◌∙◌, sym, le→ltb, arith, Bool-cases,
  inl, inr, List, [], ◌∷◌, ◌++◌, All, length, length-append, take, drop, mul_mono, if◌then◌else◌,
}
use native.Mathlib.Nat.{mod-eq_of_lt}
use quakernel.Base.Int.{ℤ}
use quakernel.Base.Exec.{returned}
use quakernel.InsertionSort.{
  MemLib, slice, is_positive, offset, element, shift, shift_from, put_key, insert_element,
  insert_from, insertion_sort,
}
use quakernel.InsertionSort.Elements.{
  join, rev_onto, HasSize, slice-join, memcpy-join, take-append, take-append-drop, length-take,
}

module _ (compare_func : List ℕ → List ℕ → ℤ) where
  -- Insertion into a list with its greatest element first.
  unfoldable pub insert : List ℕ → List (List ℕ) → List (List ℕ)
  insert key [] = key ∷ []
  insert key (r ∷ rs) = if is_positive (compare_func r key) then r ∷ insert key rs else key ∷ r ∷ rs

  unfoldable pub insert_all : List (List ℕ) → List (List ℕ) → List (List ℕ)
  insert_all [] sorted = sorted
  insert_all (key ∷ rest) sorted = insert_all rest (insert key sorted)

module _ (lib : MemLib) (n : ℕ) (compare_func : List ℕ → List ℕ → ℤ) where
  -- An offset inside an array that lies in the address space does not wrap.
  offset_lem : (i total : ℕ) → i ≤ total → total * n < 2 ^ 64 → offset lib n compare_func i ≡ i * n
  offset_lem i total h fits = mod-eq_of_lt (omega (arith, mul_mono i total n h))

  module _ (key buffer : List ℕ) (total : ℕ) (hk : length key ≡ n) (hb : slice buffer 0 n ≡ key)
      (fits : total * n < 2 ^ 64) where
    put_key_lem :
        (rs : List (List ℕ)) (old : List ℕ) (ys : List (List ℕ))
        → All (HasSize n) rs
        → length old ≡ n
        → length rs ≤ total
        → put_key lib n compare_func buffer (join (rev_onto rs (old ∷ ys)), length rs)
          ≡ join (rev_onto rs (key ∷ ys))
    unfolding put_key
    put_key_lem rs old ys h ho ht =
        rw (put_key, hb, offset_lem (length rs) total ht fits)
          (memcpy-join n lib rs old key ys h ho hk)

    write :
        (rs : List (List ℕ)) (old new : List ℕ) (ys : List (List ℕ))
        → All (HasSize n) rs
        → length old ≡ n
        → length new ≡ n
        → length rs ≤ total
        → lib.memcpy (join (rev_onto rs (old ∷ ys))) (offset lib n compare_func (length rs)) new
          ≡ join (rev_onto rs (new ∷ ys))
    write rs old new ys h ho hn ht =
        rw (offset_lem (length rs) total ht fits) (memcpy-join n lib rs old new ys h ho hn)

    element_lem :
        (rs : List (List ℕ)) (e : List ℕ) (ys : List (List ℕ))
        → All (HasSize n) rs
        → length e ≡ n
        → length rs ≤ total
        → element lib n compare_func (join (rev_onto rs (e ∷ ys))) (length rs) ≡ e
    element_lem rs e ys h he ht =
        rw (offset_lem (length rs) total ht fits) (slice-join n rs e ys h he)

    -- The inner loop and the copy of the key behind it, from an array in which the elements `rs`
    -- stand in reverse order before a place that may be written.
    shift_lem :
        (rs : List (List ℕ)) (gap : List ℕ) (after : List (List ℕ))
        → All (HasSize n) rs
        → length gap ≡ n
        → length rs ≤ total
        → put_key lib n compare_func buffer
            (shift lib n compare_func (length rs) buffer (join (rev_onto rs (gap ∷ after))))
          ≡ join (rev_onto (insert compare_func key rs) after)
    unfolding shift insert
    shift_lem [] gap after h hg ht = put_key_lem [] gap after h hg ht
    shift_lem (r ∷ rs) gap after h hg ht = elim (Bool-cases (is_positive (compare_func r key))) [
      | inl t ↦
          rw
            (
              element_lem rs r (gap ∷ after) h.1 h.0 (omega arith),
              hb,
              t,
              write (r ∷ rs) gap r after h hg h.0 ht,
            )
            (shift_lem rs r (r ∷ after) h.1 h.0 (omega arith))
      | inr f ↦
          rw (element_lem rs r (gap ∷ after) h.1 h.0 (omega arith), hb, f)
            (put_key_lem (r ∷ rs) gap after h hg ht)
    ]

    shift_from_lem :
        (rs : List (List ℕ)) (gap : List ℕ) (after : List (List ℕ))
        → All (HasSize n) rs
        → length gap ≡ n
        → length rs ≤ total
        → total ≤ 2 ^ 63
        → put_key lib n compare_func buffer
            (shift_from lib n compare_func (length rs) buffer (join (rev_onto rs (gap ∷ after))))
          ≡ join (rev_onto (insert compare_func key rs) after)
    unfolding shift_from
    shift_from_lem rs gap after h hg ht small =
        rw (le→ltb (2 ^ 63) (length rs) (omega arith)) (shift_lem rs gap after h hg ht)

  -- The buffer after the key has been copied into it: it begins with the key, and is as long as before.
  key_buffer :
      (key buffer : List ℕ)
      → length key ≡ n
      → n ≤ length buffer
      → (slice (lib.memcpy buffer 0 key) 0 n ≡ key)
        × (length (lib.memcpy buffer 0 key) ≡ length buffer)
  key_buffer key buffer hk hb =
      let copied : lib.memcpy buffer 0 key ≡ key ++ drop n buffer =
        subst (λ b. lib.memcpy b 0 key ≡ key ++ drop n buffer) (take-append-drop n buffer)
          (lib.memcpy_lem [] (take n buffer) (drop n buffer) key
            (length-take n buffer hb ∙ sym hk)) in
      (
        rw copied (take-append key (drop n buffer) n hk),
        rw copied (
            omega (
              arith,
              length-append key (drop n buffer),
              length-append (take n buffer) (drop n buffer),
              ap length (take-append-drop n buffer),
              length-take n buffer hb,
            )),
      )

  insert-HasSize :
      (key : List ℕ) (rs : List (List ℕ))
      → length key ≡ n
      → All (HasSize n) rs
      → All (HasSize n) (insert compare_func key rs)
        × (length (insert compare_func key rs) ≡ suc (length rs))
  unfolding insert
  insert-HasSize key [] hk h = ((hk, tt), refl)
  insert-HasSize key (r ∷ rs) hk h = elim (Bool-cases (is_positive (compare_func r key))) [
    | inl t ↦ let (sizes, count) = insert-HasSize key rs hk h.1 in rw t ((h.0, sizes), ap suc count)
    | inr f ↦ rw f ((hk, h), refl)
  ]

  insert_element_lem :
      (rs : List (List ℕ)) (key : List ℕ) (after : List (List ℕ)) (buffer : List ℕ) (total : ℕ)
      → All (HasSize n) rs
      → length key ≡ n
      → n ≤ length buffer
      → length rs ≤ total
      → total * n < 2 ^ 64
      → total ≤ 2 ^ 63
      → insert_element lib n compare_func (length rs) (join (rev_onto rs (key ∷ after)), buffer)
        ≡ (join (rev_onto (insert compare_func key rs) after), lib.memcpy buffer 0 key)
  unfolding insert_element
  insert_element_lem rs key after buffer total h hk hb ht fits small =
      let (holds, size) = key_buffer key buffer hk hb in
      rw (element_lem key (lib.memcpy buffer 0 key) total hk holds fits rs key after h hk ht) (
        ap (λ (a : List ℕ). (a, lib.memcpy buffer 0 key))
          (shift_from_lem key (lib.memcpy buffer 0 key) total hk holds fits rs key after h hk ht
            small))

  insert_from_lem :
      (rest rs : List (List ℕ)) (buffer : List ℕ) (total : ℕ)
      → All (HasSize n) rest
      → All (HasSize n) rs
      → n ≤ length buffer
      → length rs + length rest ≤ total
      → total * n < 2 ^ 64
      → total ≤ 2 ^ 63
      → (insert_from lib n compare_func
          (length rest)
          (length rs)
          (join (rev_onto rs rest), buffer)).0
        ≡ join (rev_onto (insert_all compare_func rest rs) [])
  unfolding insert_from insert_all
  insert_from_lem [] rs buffer total hr h hb ht fits small = refl
  insert_from_lem (key ∷ rest) rs buffer total hr h hb ht fits small =
      let (sizes, count) = insert-HasSize key rs hr.0 h in
      let next =
        insert_from_lem rest (insert compare_func key rs) (lib.memcpy buffer 0 key) total hr.1 sizes
          (omega (arith, (key_buffer key buffer hr.0 hb).1)) (omega arith) fits small in
      ap (λ state. (insert_from lib n compare_func (length rest) (suc (length rs)) state).0)
        (insert_element_lem rs key rest buffer total h hr.0 hb (omega arith) fits small)
      ∙ rw count at next

  -- Whatever the comparison function is: in an array that lies in the address space, the bytes of a
  -- list of at most `2 ^ 63` elements, each of the same size up to 256, become the bytes of the
  -- elements inserted one after the other into a list with its greatest element first, in reverse
  -- order.
  pub insertion_sort_lem :
      {S : Type 0} (es : List (List ℕ)) (buffer : List ℕ) (s : S)
      → length buffer ≡ 256
      → n ≤ 256
      → All (HasSize n) es
      → length es * n < 2 ^ 64
      → length es ≤ 2 ^ 63
      → insertion_sort lib n compare_func buffer (join es) (length es) s
        ≡ returned (join (rev_onto (insert_all compare_func es []) [])) s
  unfolding insertion_sort insert_all insert
  insertion_sort_lem [] buffer s hb hn h fits small =
      rw (le→ltb 256 n hn) (unfold insert_from in refl)
  insertion_sort_lem (e ∷ es) buffer s hb hn h fits small = rw (le→ltb 256 n hn, sorted) refl
    where
      sorted :
          (insert_from lib n compare_func (suc (length es) - 1) 1 (join (e ∷ es), buffer)).0
          ≡ join (rev_onto (insert_all compare_func es (e ∷ [])) [])
      sorted =
          ap (λ k. (insert_from lib n compare_func k 1 (join (e ∷ es), buffer)).0) (omega arith)
          ∙ insert_from_lem es (e ∷ []) buffer (length (e ∷ es)) h.1 (h.0, tt) (omega arith)
              (omega arith) fits small
