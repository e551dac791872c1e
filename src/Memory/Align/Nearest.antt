-- ===== src/Memory/Align/Nearest.antt =====
-- What alignment means, apart from masks: `AlignDown` and `AlignUp` of kernel/src/memory/memory.h
-- find the nearest multiples.
use quakernel.Base.{
  ℕ, ◌+◌, ◌-◌, ◌*◌, ◌/◌, ◌%◌, ◌^◌, ◌≤◌, ◌<◌, ◌≡◌, arith, mul_mono, leb, inl, inr, Bool-cases, add64,
  sub64, sym, ◌∙◌,
}
use native.Mathlib.Nat.{
  one-le-pow, div-lt_iff_lt-mul, mul-mod_left, div-mul-le_self, le-div_iff_mul-le, lt-div-mul-add,
  pow-le-pow_right, mod-eq_of_lt,
}
use quakernel.Memory.Align.{
  align_down, align_up, align_down_lem, align_up_lem, align_up-align_down, split_pow,
}

-- `m` is the greatest multiple of `a` that is at most `v`.
pub record IsFloor (a v m : ℕ) : Type 0 where
  pub multiple : m % a ≡ 0
  pub below : m ≤ v
  pub greatest : (n : ℕ) → n * a ≤ v → n * a ≤ m

-- `m` is the least multiple of `a` that is at least `v`.
pub record IsCeiling (a v m : ℕ) : Type 0 where
  pub multiple : m % a ≡ 0
  pub above : v ≤ m
  pub least : (n : ℕ) → v ≤ n * a → m ≤ n * a

floor : (a v : ℕ) → 0 < a → IsFloor a v (v / a * a)
floor a v h = record {
  multiple = mul-mod_left (v / a) a;
  below = div-mul-le_self v a;
  greatest = λ n p. mul_mono n (v / a) a ((le-div_iff_mul-le h).1 p);
}

ceiling : (a v : ℕ) → 0 < a → IsCeiling a v ((v + a - 1) / a * a)
ceiling a v h = record {
  multiple = mul-mod_left ((v + a - 1) / a) a;
  above = omega (arith, lt-div-mul-add {a = v + a - 1} {b = a} h);
  least = λ n p.
      mul_mono ((v + a - 1) / a) n a
        (omega (arith, (div-lt_iff_lt-mul {k = a} {x = v + a - 1} {y = n + 1} h).1 (grind arith)));
}

-- What `AlignUp` cuts off at the end of the address space.
align_up_wrapped :
    (k v : ℕ)
    → k < 64
    → v < 2 ^ 64
    → 2 ^ 64 < v + 2 ^ k
    → align_up v (2 ^ k) ≡ (v + 2 ^ k - 1) / 2 ^ k * 2 ^ k % 2 ^ 64
align_up_wrapped k v h fits over =
    let pos = one-le-pow k 2 (omega arith) in
    let low =
      (floor (2 ^ k) (v + 2 ^ k - 1) pos).greatest (2 ^ (64 - k)) (omega (arith, split_pow k h)) in
    let high = (ceiling (2 ^ k) v pos).least (2 ^ (64 - k)) (omega (arith, split_pow k h)) in
    let bound = pow-le-pow_right {n = 2} (omega arith) {i = k} {j = 63} (omega arith) in
    let w = v + 2 ^ k - 1 - 2 ^ 64 in
    let sum : sub64 (add64 v (2 ^ k)) 1 ≡ w = omega arith in
    let none : w / 2 ^ k ≡ 0 =
      omega (arith, (div-lt_iff_lt-mul {k = 2 ^ k} {x = w} {y = 1} pos).1 (omega arith)) in
    align_up-align_down v (2 ^ k)
    ∙ rw sum (align_down_lem k w h (omega arith) ∙ rw none (omega (arith, split_pow k h)))

align_up_fits :
    (k v : ℕ)
    → k < 64
    → v + 2 ^ k ≤ 2 ^ 64
    → align_up v (2 ^ k) ≡ (v + 2 ^ k - 1) / 2 ^ k * 2 ^ k % 2 ^ 64
align_up_fits k v h fits =
    align_up_lem k v h fits
    ∙ sym (mod-eq_of_lt (omega (arith, div-mul-le_self (v + 2 ^ k - 1) (2 ^ k), one-le-pow k 2)))

-- `AlignDown` to a power of two gives the greatest multiple of it that is at most the value. `AlignUp`
-- gives the least multiple that is at least the value, cut to 64 bits: 0 if that is `2 ^ 64`.
pub align_nearest :
    (k v : ℕ)
    → k < 64
    → v < 2 ^ 64
    → IsFloor (2 ^ k) v (align_down v (2 ^ k))
      × (c : ℕ) × IsCeiling (2 ^ k) v c
      × (align_up v (2 ^ k) ≡ c % 2 ^ 64)
align_nearest k v h fits =
    let pos = one-le-pow k 2 (omega arith) in
    (
      rw (align_down_lem k v h fits) (floor (2 ^ k) v pos),
      (v + 2 ^ k - 1) / 2 ^ k * 2 ^ k,
      ceiling (2 ^ k) v pos,
      elim (Bool-cases (leb (v + 2 ^ k) (2 ^ 64))) [
        | inl room ↦ align_up_fits k v h (ground arith)
        | inr over ↦ align_up_wrapped k v h fits (ground arith)
      ],
    )
