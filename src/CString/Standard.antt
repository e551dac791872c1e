-- ===== src/CString/Standard.antt =====
-- A `strncmp` that does what ISO C asks of one: it shows that the interface can be met.
use quakernel.Base.{
  ℕ, zero, suc, ◌<◌, ◌≡◌, refl, ◌∙◌, ◌↔◌, arith, List, [], ◌∷◌, ◌++◌, take, ltb, ◌==◌,
  if◌then◌else◌,
}
use quakernel.Base.Int.{ℤ, pos, negsuc}
use quakernel.CString.{IsText, StringLib}

compare_first : ℕ → ℕ → ℤ → ℤ
compare_first x y rest =
    if x == y then (if x == 0 then pos 0 else rest) else if ltb x y then negsuc 0 else pos 1

compare_first-eq_zero :
    (x y : ℕ) (r : ℤ) → 0 < x → compare_first x y r ≡ pos 0 → (x ≡ y) × (r ≡ pos 0)
unfolding compare_first
compare_first-eq_zero x y r h e = ground arith

compare_first-same : (x y : ℕ) (r : ℤ) → 0 < x → x ≡ y → compare_first x y r ≡ r
unfolding compare_first
compare_first-same x y r h e = ground arith

unfoldable pub strncmp : List ℕ → List ℕ → ℕ → ℤ
unfolding compare_first
strncmp (x ∷ a) (y ∷ b) (suc n) = compare_first x y (strncmp a b n)
strncmp _ _ _ = pos 0

pub strncmp_zero :
    (a b after_a after_b : List ℕ) (n : ℕ)
    → IsText a
    → IsText b
    → (strncmp (a ++ 0 ∷ after_a) (b ++ 0 ∷ after_b) n ≡ pos 0) ↔ (take n a ≡ take n b)
unfolding strncmp compare_first
strncmp_zero [] [] p q zero ta tb = (λ e. refl, λ e. refl)
strncmp_zero [] [] p q (suc n) ta tb = (λ e. refl, λ e. refl)
strncmp_zero [] (y ∷ b) p q zero ta tb = (λ e. refl, λ e. refl)
strncmp_zero [] (y ∷ b) p q (suc n) ta tb = (λ e. ground arith, λ e. cc)
strncmp_zero (x ∷ a) [] p q zero ta tb = (λ e. refl, λ e. refl)
strncmp_zero (x ∷ a) [] p q (suc n) ta tb = (λ e. ground arith, λ e. cc)
strncmp_zero (x ∷ a) (y ∷ b) p q zero ta tb = (λ e. refl, λ e. refl)
strncmp_zero (x ∷ a) (y ∷ b) p q (suc n) ta tb =
    let ih = strncmp_zero a b p q n ta.1 tb.1 in
    (
      λ e. let (heads, rest) = compare_first-eq_zero x y _ ta.0 e in cc (ih.0 rest),
      λ e. let tails : take n a ≡ take n b = cc in compare_first-same x y _ ta.0 (cc) ∙ ih.1 tails,
    )

abbrev pub standard : StringLib
standard = record { strncmp = strncmp; strncmp_zero = strncmp_zero }
