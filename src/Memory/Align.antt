-- ===== src/Memory/Align.antt =====
-- `AlignDown` and `AlignUp` of kernel/src/memory/memory.h, on `uint64_t`.
pub mod Nearest
use quakernel.Base.{
  ℕ, ◌+◌, ◌-◌, ◌*◌, ◌/◌, ◌%◌, ◌^◌, ◌≤◌, ◌<◌, bit_and, ◌≡◌, arith, add64, sub64, not64, refl, ◌==◌,
  ==_iff,
}
use quakernel.Base.Bits.{bit_and_ones, bit_and_high, holds_below, holds_below-at}
use native.Mathlib.Nat.{one-le-pow, div-lt_iff_lt-mul}

-- `value & ~(alignment - 1)`
unfoldable pub align_down : ℕ → ℕ → ℕ
align_down value alignment = bit_and value (not64 (sub64 alignment 1))

-- `(value + alignment - 1) & ~(alignment - 1)`
unfoldable pub align_up : ℕ → ℕ → ℕ
align_up value alignment = bit_and (sub64 (add64 value alignment) 1) (not64 (sub64 alignment 1))

-- The mask of an alignment of `2 ^ k`: the bits from `k` on.
mask : (k : ℕ) → k < 64 → not64 (sub64 (2 ^ k) 1) ≡ (2 ^ (64 - k) - 1) * 2 ^ k
unfolding holds_below
mask k h =
    (==_iff _ _).0
      (holds_below-at (λ k. not64 (sub64 (2 ^ k) 1) == (2 ^ (64 - k) - 1) * 2 ^ k) 64 k refl h)

pub split_pow : (k : ℕ) → k < 64 → 2 ^ (64 - k) * 2 ^ k ≡ 2 ^ 64
unfolding holds_below
split_pow k h = (==_iff _ _).0 (holds_below-at (λ k. 2 ^ (64 - k) * 2 ^ k == 2 ^ 64) 64 k refl h)

high_bits : (k v : ℕ) → k < 64 → v < 2 ^ 64 → v / 2 ^ k < 2 ^ (64 - k)
high_bits k v h fits =
    (div-lt_iff_lt-mul (one-le-pow k 2 (omega arith))).1 (omega (arith, split_pow k h))

-- `AlignDown` to a power of two cuts a value to the multiple below it.
pub align_down_lem : (k v : ℕ) → k < 64 → v < 2 ^ 64 → align_down v (2 ^ k) ≡ v / 2 ^ k * 2 ^ k
unfolding align_down
align_down_lem k v h fits =
    rw (mask k h, bit_and_high, bit_and_ones (64 - k) (v / 2 ^ k) (high_bits k v h fits))

-- `AlignUp` to a power of two gives the multiple above, if that is not cut by the width.
pub align_up_lem :
    (k v : ℕ) → k < 64 → v + 2 ^ k ≤ 2 ^ 64 → align_up v (2 ^ k) ≡ (v + 2 ^ k - 1) / 2 ^ k * 2 ^ k
unfolding align_up
align_up_lem k v h fits =
    rw
      (
        no_wrap,
        mask k h,
        bit_and_high,
        bit_and_ones (64 - k) ((v + 2 ^ k - 1) / 2 ^ k)
            (high_bits k (v + 2 ^ k - 1) h (omega (arith, one-le-pow k 2))),
      )
      refl
  where
    no_wrap : sub64 (add64 v (2 ^ k)) 1 ≡ v + 2 ^ k - 1
    no_wrap = omega (arith, one-le-pow k 2)

-- At the alignment that the kernel uses, `sizeof( uint64_t )`.
pub align_down-word : (v : ℕ) → v < 2 ^ 64 → align_down v 8 ≡ v / 8 * 8
align_down-word v h = align_down_lem 3 v (omega arith) h

pub align_up-word : (v : ℕ) → v < 2 ^ 64 → v % 8 ≡ 0 → align_up v 8 ≡ v
align_up-word v h e = omega (arith, align_up_lem 3 v (omega arith) (omega arith))

pub align_up-align_down : (v a : ℕ) → align_up v a ≡ align_down (sub64 (add64 v a) 1) a
unfolding align_up align_down
align_up-align_down v a = refl

-- `AlignUp` gives a multiple of eight at every value, also where it wraps.
pub align_up_mod : (v : ℕ) → align_up v 8 % 8 ≡ 0
align_up_mod v = omega (arith, align_up-align_down v 8, align_down-word (sub64 (add64 v 8) 1))
