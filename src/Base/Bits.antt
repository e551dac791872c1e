-- ===== src/Base/Bits.antt =====
-- `&` with masks and `|` of disjoint fields, as arithmetic at every width, and a check of every byte.
mod Step
use Step.{bit_and_step, bit_and_zero, bit_or_step, bit_or_zero}
use Prim.Native.Nat.{ℕ, zero, suc, ◌+◌, ◌-◌, ◌*◌, ◌/◌, ◌%◌, ◌^◌, ◌≤◌, ◌<◌, bit_and, bit_or}
use mathlib.Core.Path.{◌≡◌, refl, ap, sym, ◌∙◌}
use mathlib.Core.Bool.{Bool, true, false, ◌&&◌}
use native.Mathlib.Nat.{
  mul_assoc, add-suc, add-zero, mul-lt-mul_of_pos_right, pow-le-pow_right, pow-suc, one-le-pow,
  div-div-eq-div-mul,
}
use native.Mathlib.Omega.{arith}

two_pow-suc : (k : ℕ) → 2 ^ suc k ≡ 2 * 2 ^ k
two_pow-suc k = omega (arith, pow-suc 2 k)

pub two_pow-add : (w k : ℕ) → 2 ^ (w + k) ≡ 2 ^ w * 2 ^ k
two_pow-add w zero = omega (arith, ap (λ (n : ℕ). 2 ^ n) (add-zero w))
two_pow-add w (suc k) = omega (
  arith,
  two_pow-suc (w + k),
  two_pow-suc k,
  two_pow-add w k,
  ap (λ (n : ℕ). 2 ^ w * n) (two_pow-suc k),
  ap (λ (n : ℕ). 2 ^ n) (add-suc w k),
)

-- A field of `w` bits that is shifted by `k` ends below bit `t`.
pub field_lt : (v w k t : ℕ) → v < 2 ^ w → w + k ≤ t → v * 2 ^ k < 2 ^ t
field_lt v w k t h le = omega (
  arith,
  mul-lt-mul_of_pos_right {k = 2 ^ k} h (one-le-pow k 2 (omega arith)),
  two_pow-add w k,
  pow-le-pow_right {n = 2} (omega arith) le,
)

-- The fields of a number above a bit, seen from a bit further up.
pub field_split : (v k t : ℕ) → k ≤ t → v * 2 ^ t ≡ v * 2 ^ (t - k) * 2 ^ k
field_split v k t le =
    let e : t - k + k ≡ t = omega arith in
    ap (λ (n : ℕ). v * 2 ^ n) (sym e)
    ∙ ap (λ (n : ℕ). v * n) (two_pow-add (t - k) k)
    ∙ sym (mul_assoc v (2 ^ (t - k)) (2 ^ k))

-- A mask of `w` ones keeps a value of at most `w` bits.
pub bit_and_ones : (w v : ℕ) → v < 2 ^ w → bit_and v (2 ^ w - 1) ≡ v
bit_and_ones zero zero h = refl
bit_and_ones zero (suc v) h = absurd (omega arith)
bit_and_ones (suc w) v h = ground (
  arith,
  bit_and_step v (2 ^ suc w - 1),
  two_pow-suc w,
  one-le-pow w 2,
  bit_and_ones w (v / 2) (omega (arith, two_pow-suc w)),
)

low_field : (k q r : ℕ) → r < 2 ^ k → bit_and (q * 2 ^ k + r) (2 ^ k - 1) ≡ r
low_field zero q r h = rw bit_and_zero (omega arith)
low_field (suc k) q r h = ground (
  arith,
  bit_and_step (q * 2 ^ suc k + r) (2 ^ suc k - 1),
  ap (λ (n : ℕ). q * n) (two_pow-suc k),
  two_pow-suc k,
  one-le-pow k 2,
  low_field k q (r / 2) (omega (arith, two_pow-suc k)),
)

-- A mask of `k` ones takes the remainder.
pub bit_and_mask : (k v : ℕ) → bit_and v (2 ^ k - 1) ≡ v % 2 ^ k
bit_and_mask k v = ground (arith, one-le-pow k 2, low_field k (v / 2 ^ k) (v % 2 ^ k))

-- A mask whose `k` low bits are clear clears those of the value.
pub bit_and_high : (k v m : ℕ) → bit_and v (m * 2 ^ k) ≡ bit_and (v / 2 ^ k) m * 2 ^ k
bit_and_high zero v m = ground arith
bit_and_high (suc k) v m =
    rw
      (
        two_pow-suc k,
        bit_and_step v (m * (2 * 2 ^ k)),
        halves,
        bit_and_high k (v / 2) m,
        ← div-div-eq-div-mul v 2 (2 ^ k),
      )
      (omega arith)
  where
    halves : m * (2 * 2 ^ k) / 2 ≡ m * 2 ^ k
    halves = omega arith

-- The bits of a field that is shifted above another one are its own.
pub bit_or_above : (k q r : ℕ) → r < 2 ^ k → bit_or (q * 2 ^ k) r ≡ q * 2 ^ k + r
bit_or_above zero q zero h = omega (arith, bit_or_zero (q * 1))
bit_or_above zero q (suc r) h = absurd (omega arith)
bit_or_above (suc k) q r h = ground (
  arith,
  bit_or_step (q * 2 ^ suc k) r,
  ap (λ (n : ℕ). q * n) (two_pow-suc k),
  two_pow-suc k,
  bit_or_above k q (r / 2) (omega (arith, two_pow-suc k)),
)

-- `p` holds of every number below `n`, by trying each from 0 up.
unfoldable pub holds_below : (ℕ → Bool) → ℕ → Bool
holds_below p zero = true
holds_below p (suc n) = holds_below p n && p n

pub holds_below-at : (p : ℕ → Bool) (n x : ℕ) → holds_below p n ≡ true → x < n → p x ≡ true
unfolding holds_below
holds_below-at p zero x all lt = absurd (omega arith)
holds_below-at p (suc n) x all lt = ground (arith, holds_below-at p n x)
