-- ===== src/Framebuffer/Pixel.antt =====
-- `PackPixel` (kernel/src/main.c): where the channels stand in a packed pixel.
use native.Mathlib.Nat.{div-lt_iff_lt-mul, one-le-pow, add-mul}
use quakernel.Base.{
  ℕ, ◌+◌, ◌-◌, ◌*◌, ◌/◌, ◌^◌, ◌≤◌, ◌<◌, ◌≡◌, ap, sym, ◌∙◌, arith, refl, Bool-cases, false, inl, inr,
  none, some, leb, if◌then◌else◌, bit_or,
}
use quakernel.Base.Exec.{returned, undefined}
use quakernel.Base.Bits.{bit_or_above, two_pow-add, field_lt, field_split}
use quakernel.Framebuffer.{pack_channel, pack_pixel}

-- The top `size` bits of a byte.
abbrev pub top_bits : ℕ → ℕ → ℕ
top_bits v size = v / 2 ^ (8 - size)

top_bits-lt : (v size : ℕ) → v < 2 ^ 8 → size ≤ 8 → top_bits v size < 2 ^ size
top_bits-lt v size h le =
    let e : size + (8 - size) ≡ 8 = omega arith in
    (div-lt_iff_lt-mul (one-le-pow (8 - size) 2 (omega arith))).1
      (omega (arith, two_pow-add size (8 - size), ap (λ (n : ℕ). 2 ^ n) e))

pack_channel_lem :
    (v shift size : ℕ)
    → size ≤ 8
    → shift < 32
    → pack_channel v shift size ≡ (
        if leb (2 ^ 31) (top_bits v size * 2 ^ shift)
        then none
        else some (top_bits v size * 2 ^ shift))
unfolding pack_channel
pack_channel_lem v shift size le lt = ground arith

-- A field that ends within 31 bits is held by an `int`.
pack_channel-low :
    (v shift size : ℕ)
    → v < 2 ^ 8
    → size ≤ 8
    → shift < 32
    → size + shift ≤ 31
    → pack_channel v shift size ≡ some (top_bits v size * 2 ^ shift)
pack_channel-low v shift size h le lt fits =
    let small = field_lt (top_bits v size) size shift 31 (top_bits-lt v size h le) fits in
    let test : leb (2 ^ 31) (top_bits v size * 2 ^ shift) ≡ false = ground (arith, small) in
    pack_channel_lem v shift size le lt ∙ rw test refl

-- Three fields, each above the next one.
fields_joined :
    (r g b gn bn rk gk bk : ℕ)
    → g < 2 ^ gn
    → b < 2 ^ bn
    → gn + gk ≤ rk
    → bn + bk ≤ gk
    → bit_or (bit_or (r * 2 ^ rk) (g * 2 ^ gk)) (b * 2 ^ bk) ≡ r * 2 ^ rk + g * 2 ^ gk + b * 2 ^ bk
fields_joined r g b gn bn rk gk bk hg hb above_g above_b =
    let high = bit_or_above rk r (g * 2 ^ gk) (field_lt g gn gk rk hg above_g) in
    let both : r * 2 ^ rk + g * 2 ^ gk ≡ (r * 2 ^ (rk - gk) + g) * 2 ^ gk =
      ap (λ (n : ℕ). n + g * 2 ^ gk) (field_split r gk rk (omega arith))
      ∙ sym (add-mul (r * 2 ^ (rk - gk)) g (2 ^ gk)) in
    let all =
      bit_or_above gk (r * 2 ^ (rk - gk) + g) (b * 2 ^ bk) (field_lt b bn bk gk hb above_b) in
    ap (λ (n : ℕ). bit_or n (b * 2 ^ bk)) (high ∙ both)
    ∙ all
    ∙ ap (λ (n : ℕ). n + b * 2 ^ bk) (sym both)

-- With masks of at most eight bits, red above green above blue, that do not overlap and end within 32
-- bits, the packed pixel is the sum of the channels, each cut to the top bits that its mask has room
-- for and moved to its mask, if the field of the red channel is below `2 ^ 31`. If it is not, which
-- takes a mask that ends at the top bit, then the shift is undefined, as its result is no `int`.
pub pack_pixel-fields :
    {S : Type 0} (r g b rk gk bk rn gn bn : ℕ) (s : S)
    → (r < 2 ^ 8) × (g < 2 ^ 8) × (b < 2 ^ 8)
    → (rn ≤ 8) × (gn ≤ 8) × (bn ≤ 8)
    → bn + bk ≤ gk
    → gn + gk ≤ rk
    → rn + rk ≤ 32
    → rk < 32
    → pack_pixel r g b rk gk bk rn gn bn s ≡ (
        if leb (2 ^ 31) (top_bits r rn * 2 ^ rk)
        then undefined
        else returned (top_bits r rn * 2 ^ rk + top_bits g gn * 2 ^ gk + top_bits b bn * 2 ^ bk) s)
unfolding pack_pixel
pack_pixel-fields r g b rk gk bk rn gn bn s bytes sizes above_b above_g fits lt =
    let red = pack_channel_lem r rk rn sizes.0 lt in
    elim (Bool-cases (leb (2 ^ 31) (top_bits r rn * 2 ^ rk))) [
      | inl large ↦ rw (red, large) refl
      | inr small ↦
          rw
            (
              red,
              small,
              pack_channel-low g gk gn bytes.1 sizes.1 (omega arith) (omega arith),
              pack_channel-low b bk bn bytes.2 sizes.2 (omega arith) (omega arith),
            )
            (ap (λ n. returned n s)
              (fields_joined (top_bits r rn) (top_bits g gn) (top_bits b bn) gn bn rk gk bk
                (top_bits-lt g gn bytes.1 sizes.1) (top_bits-lt b bn bytes.2 sizes.2) above_g
                above_b))
    ]
