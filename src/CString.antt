-- ===== src/CString.antt =====
-- C strings in memory, and the `strncmp` of the C library that the kernel is linked with, as an
-- interface.
pub mod Standard
use Prim.Native.Char.{code}
use Prim.Native.String.{String}
use quakernel.Base.{
  ℕ, suc, ◌<◌, ◌≡◌, refl, ◌↔◌, ◌∙◌, sym, ap, arith, Bool, true, false, List, [], ◌∷◌, ◌++◌, All,
  length, length-append, take,
}
use quakernel.Base.Int.{ℤ, pos, negsuc}

abbrev pub codes : String → List ℕ
codes String.[] = []
codes (String.◌∷◌ c s) = code c ∷ codes s

-- The text without the terminating 0.
abbrev pub IsText : List ℕ → Type 0
IsText text = All (λ c. 0 < c) text

-- `strncmp` of two pointers, each given by the bytes from it on. What ISO C promises and the kernel
-- uses: the result is 0 exactly if the texts agree in their first `n` characters.
pub record StringLib : Type 0 where
  pub strncmp : List ℕ → List ℕ → ℕ → ℤ
  pub strncmp_zero :
      (a b after_a after_b : List ℕ) (n : ℕ)
      → IsText a
      → IsText b
      → (strncmp (a ++ 0 ∷ after_a) (b ++ 0 ∷ after_b) n ≡ pos 0) ↔ (take n a ≡ take n b)

abbrev pub is_zero : ℤ → Bool
is_zero (pos n) = elim n [ ℕ.zero ↦ true | suc m ↦ false ]
is_zero (negsuc n) = false

is_zero_iff : (z : ℤ) → (is_zero z ≡ true) ↔ (z ≡ pos 0)
is_zero_iff z = ground arith

take_all : (n : ℕ) (a : List ℕ) → length a < n → take n a ≡ a
take_all ℕ.zero a h = absurd (omega arith)
take_all (suc n) [] h = refl
take_all (suc n) (x ∷ a) h = ap (◌∷◌ x) (take_all n a (omega arith))

-- One character more than the second text has decides equality.
take_decides : (a b : List ℕ) → take (suc (length b)) a ≡ b → a ≡ b
take_decides [] b h = h
take_decides (x ∷ a) [] h = cc
take_decides (x ∷ a) (y ∷ b) h =
    let tail : take (suc (length b)) a ≡ b = cc in
    let head : x ≡ y = cc in cc (take_decides a b tail)

module _ (lib : StringLib) where
  open lib use {strncmp, strncmp_zero}

  -- `strncmp( text, constant, sizeof( constant ) ) == 0`
  unfoldable pub is_same : List ℕ → List ℕ → Bool
  is_same text constant = is_zero (strncmp text constant (length constant))

  -- Against an array that holds a text and its 0, the test is equality of texts.
  pub is_same_iff :
      (a b after : List ℕ)
      → IsText a
      → IsText b
      → (is_same (a ++ 0 ∷ after) (b ++ 0 ∷ []) ≡ true) ↔ (a ≡ b)
  unfolding is_same
  is_same_iff a b after ta tb = (
    λ e.
        take_decides a b
          (rw size at (law.0 ((is_zero_iff _).0 e)) ∙ take_all (suc (length b)) b (omega arith)),
    λ e. (is_zero_iff _).1 (law.1 (ap (take _) e)),
  )
    where
      law :
          (strncmp (a ++ 0 ∷ after) (b ++ 0 ∷ []) (length (b ++ 0 ∷ [])) ≡ pos 0)
          ↔ (take (length (b ++ 0 ∷ [])) a ≡ take (length (b ++ 0 ∷ [])) b)
      law = strncmp_zero a b after [] _ ta tb

      size : length (b ++ 0 ∷ []) ≡ suc (length b)
      size = omega (arith, length-append b (0 ∷ []))
