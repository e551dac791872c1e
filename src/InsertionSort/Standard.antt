-- ===== src/InsertionSort/Standard.antt =====
-- A `memcpy` that does what ISO C asks of one: it shows that the interface can be met.
use quakernel.Base.{ℕ, suc, ◌≡◌, refl, ap, ◌∙◌, arith, List, [], ◌∷◌, ◌++◌, length}
use quakernel.InsertionSort.{MemLib}

overwrite : List ℕ → List ℕ → List ℕ
overwrite (x ∷ dest) (b ∷ bytes) = b ∷ overwrite dest bytes
overwrite dest _ = dest

pub memcpy : List ℕ → ℕ → List ℕ → List ℕ
memcpy (x ∷ dest) (suc offset) bytes = x ∷ memcpy dest offset bytes
memcpy dest _ bytes = overwrite dest bytes

overwrite-append :
    (old after new : List ℕ) → length old ≡ length new → overwrite (old ++ after) new ≡ new ++ after
unfolding overwrite
overwrite-append [] [] [] h = refl
overwrite-append [] (a ∷ after) [] h = refl
overwrite-append [] after (y ∷ new) h = absurd (omega arith)
overwrite-append (x ∷ old) after [] h = absurd (omega arith)
overwrite-append (x ∷ old) after (y ∷ new) h =
    ap (◌∷◌ y) (overwrite-append old after new (omega arith))

memcpy-start : (dest new : List ℕ) → memcpy dest 0 new ≡ overwrite dest new
unfolding memcpy
memcpy-start [] new = refl
memcpy-start (x ∷ dest) new = refl

pub memcpy_lem :
    (before old after new : List ℕ)
    → length old ≡ length new
    → memcpy (before ++ (old ++ after)) (length before) new ≡ before ++ (new ++ after)
unfolding memcpy
memcpy_lem [] old after new h = memcpy-start (old ++ after) new ∙ overwrite-append old after new h
memcpy_lem (x ∷ before) old after new h = ap (◌∷◌ x) (memcpy_lem before old after new h)

abbrev pub standard : MemLib
standard = record { memcpy = memcpy; memcpy_lem = memcpy_lem }
