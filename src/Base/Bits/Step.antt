-- ===== src/Base/Bits/Step.antt =====
-- The native bit operations are recursions on binary digits that count down on their first argument;
-- here is one equation for the lowest digit of each, without the count.
use Prim.Native.Nat.{
  ℕ, zero, suc, ◌+◌, ◌*◌, ◌/◌, ◌%◌, ◌≤◌, min, max, digits, bit_and, bit_or, bit_and-bitwise,
  bit_or-bitwise,
}
use mathlib.Core.Path.{◌≡◌, refl}
use native.Mathlib.Nat.{le_refl}
use native.Mathlib.Omega.{arith}

-- A count that is large enough does not matter.
digits_count :
    (z : ℕ → ℕ) (f : ℕ → ℕ → ℕ) (m n a b : ℕ) → a ≤ m → a ≤ n → digits z f m a b ≡ digits z f n a b
digits_count z f zero zero a b p q = refl
digits_count z f zero (suc n) zero b p q = refl
digits_count z f zero (suc n) (suc a) b p q = absurd (omega arith)
digits_count z f (suc m) zero zero b p q = refl
digits_count z f (suc m) zero (suc a) b p q = absurd (omega arith)
digits_count z f (suc m) (suc n) zero b p q = refl
digits_count z f (suc m) (suc n) (suc a) b p q =
    rw (digits_count z f m n (suc a / 2) (b / 2) (omega arith) (omega arith))

pub bit_and_step : (x y : ℕ) → bit_and x y ≡ min (x % 2) (y % 2) + 2 * bit_and (x / 2) (y / 2)
bit_and_step zero y = omega (arith, bit_and-bitwise 0 y, bit_and-bitwise 0 (y / 2))
bit_and_step (suc x) y =
    let count =
      digits_count (λ y. 0) min x (suc x / 2) (suc x / 2) (y / 2) (omega arith) (le_refl _) in
    simp bit_and-bitwise (omega (arith, count))

pub bit_or_step : (x y : ℕ) → bit_or x y ≡ max (x % 2) (y % 2) + 2 * bit_or (x / 2) (y / 2)
bit_or_step zero y = simp bit_or-bitwise (omega arith)
bit_or_step (suc x) y =
    let count =
      digits_count (λ y. y) max x (suc x / 2) (suc x / 2) (y / 2) (omega arith) (le_refl _) in
    simp bit_or-bitwise (omega (arith, count))

and_digits-zero : (n a : ℕ) → digits (λ y. 0) min n a 0 ≡ 0
and_digits-zero zero a = refl
and_digits-zero (suc n) zero = refl
and_digits-zero (suc n) (suc a) = omega (arith, and_digits-zero n (suc a / 2))

-- No bit is set in 0.
pub bit_and_zero : (a : ℕ) → bit_and a 0 ≡ 0
bit_and_zero a = simp bit_and-bitwise (and_digits-zero a a)

or_digits-zero : (n a : ℕ) → a ≤ n → digits (λ y. y) max n a 0 ≡ a
or_digits-zero zero a h = omega arith
or_digits-zero (suc n) zero h = refl
or_digits-zero (suc n) (suc a) h = omega (arith, or_digits-zero n (suc a / 2) (omega arith))

pub bit_or_zero : (a : ℕ) → bit_or a 0 ≡ a
bit_or_zero a = simp bit_or-bitwise (or_digits-zero a a (le_refl a))
