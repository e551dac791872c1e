-- ===== src/Framebuffer/Picture.antt =====
-- The framebuffer as a picture: which colour each pixel has after the stores of `FramebufferPutPixel`
-- (kernel/src/main.c).
use quakernel.Base.{
  All, Bool, true, ◌%◌, ◌*◌, sym, ==_iff, ltb, ℕ, ◌+◌, ◌/◌, ◌≤◌, ◌<◌, ◌≡◌, refl, ap, ◌∙◌, arith,
  false, ltb→lt, ltb→le, ◌≢◌, Bool-cases, ◌&&◌, ◌||◌, ◌⊎◌, inl, inr, Option, none, some, List, [],
  ◌∷◌, leb, ◌==◌, mul_mono, if◌then◌else◌,
}
use quakernel.Framebuffer.{
  Framebuffer, Store, pixel_store, framebuffer_put_pixel, framebuffer_get_size_in_bytes,
}
use quakernel.Framebuffer.Address.{IsPlaced, offset, pixel_store-at}

-- The 32 bits at an address after the stores, the newest first: `none` if they were never stored, or
-- if the last store that touched one of the four bytes was not to this address.
pub read32 : List Store → ℕ → Option ℕ
read32 [] a = none
read32 (st ∷ stores) a =
    if st.at == a
    then some st.value
    else if leb (a + 4) st.at || leb (st.at + 4) a
    then read32 stores a
    else none

-- The colour of a pixel of 32 bits: what stands at its place in the framebuffer, its offset in bytes
-- behind the framebuffer's address.
pub shown : Framebuffer → ℕ → ℕ → List Store → Option ℕ
shown fbo x y stores = read32 stores (fbo.address + offset fbo x y)

read32-same :
    (st : Store) (stores : List Store) (a : ℕ) → st.at ≡ a → read32 (st ∷ stores) a ≡ some st.value
unfolding read32
read32-same st stores a e = ground arith

read32-apart :
    (st : Store) (stores : List Store) (a : ℕ)
    → (a + 4 ≤ st.at) ⊎ (st.at + 4 ≤ a)
    → read32 (st ∷ stores) a ≡ read32 stores a
unfolding read32
read32-apart st stores a h = ground arith

abbrev pub InFramebuffer : Framebuffer → ℕ → ℕ → Type 0
InFramebuffer fbo x y = (x < fbo.width) × (y < fbo.height)

-- What `FramebufferPutPixel` assumes: pixels of 32 bits, in rows of whole words.
pub record IsWordPixels (fbo : Framebuffer) : Type 0 where
  pub placed : IsPlaced fbo
  pub deep : fbo.bits_per_pixel ≡ 32
  pub words : fbo.bytes_per_row % 4 ≡ 0

-- Where the pixel at four times the coordinates belongs. Behind the end of a row that is in a later
-- one.
abbrev pub is_scaled : Framebuffer → (x y x' y' : ℕ) → Bool
is_scaled fbo x y x' y' = offset fbo x' y' == offset fbo (4 * x) (4 * y)

-- All four bytes of the store belong to the framebuffer.
abbrev pub IsWithin : Framebuffer → Store → Type 0
IsWithin fbo st =
    (fbo.address ≤ st.at) × (st.at + 4 ≤ fbo.address + framebuffer_get_size_in_bytes fbo)

module _ (fbo : Framebuffer) (w : IsWordPixels fbo) where
  pixel_bytes : (x : ℕ) → x * (fbo.bits_per_pixel / 8) ≡ 4 * x
  pixel_bytes x = ap (λ (n : ℕ). x * (n / 8)) w.deep ∙ omega arith

  offset-word : (x y : ℕ) → offset fbo x y % 4 ≡ 0
  offset-word x y =
      let whole : fbo.bytes_per_row ≡ 4 * (fbo.bytes_per_row / 4) = omega (arith, w.words) in
      let rows : y * fbo.bytes_per_row ≡ 4 * (y * (fbo.bytes_per_row / 4)) =
        ap (λ (n : ℕ). y * n) whole ∙ omega arith in
      omega (arith, rows, pixel_bytes x)

  offset_scaled : (x y : ℕ) → offset fbo (4 * x) (4 * y) ≡ 4 * offset fbo x y
  offset_scaled x y = omega (arith, pixel_bytes x, pixel_bytes (4 * x))

  pixel_store-scaled :
      (x y rgb : ℕ)
      → InFramebuffer fbo x y
      → (pixel_store fbo x y rgb).at ≡ fbo.address + offset fbo (4 * x) (4 * y)
  pixel_store-scaled x y rgb i =
      pixel_store-at fbo x y rgb w.placed i.0 i.1
      ∙ ap (λ (n : ℕ). fbo.address + n) (sym (offset_scaled x y))

  -- The pixels of the upper quarter are stored inside the framebuffer.
  pub pixel_store-IsWithin :
      (x y rgb : ℕ)
      → InFramebuffer fbo x y
      → 4 * (y + 1) ≤ fbo.height
      → IsWithin fbo (pixel_store fbo x y rgb)
  unfolding framebuffer_get_size_in_bytes
  pixel_store-IsWithin x y rgb i upper = omega (
    arith,
    pixel_store-at fbo x y rgb w.placed i.0 i.1,
    pixel_bytes x,
    pixel_bytes fbo.width,
    w.placed.rows,
    w.placed.fits,
    mul_mono (4 * (y + 1)) fbo.height fbo.bytes_per_row upper,
  )

  -- Any other place shares no byte with the store.
  apart :
      (x y x' y' rgb : ℕ)
      → InFramebuffer fbo x y
      → is_scaled fbo x y x' y' ≡ false
      → let at = (pixel_store fbo x y rgb).at in
        let at' = fbo.address + offset fbo x' y' in (at' + 4 ≤ at) ⊎ (at + 4 ≤ at')
  apart x y x' y' rgb i other =
      let at = pixel_store-scaled x y rgb i in
      let w1 = offset-word x' y' in
      let w2 = offset-word (4 * x) (4 * y) in
      elim (Bool-cases (ltb (offset fbo x' y') (offset fbo (4 * x) (4 * y)))) [
        | inl lt ↦ inl (omega (arith, at, w1, w2, ltb→lt _ _ lt))
        | inr ge ↦ inr (omega (arith, at, w1, w2, ltb→le _ _ ge, differ))
      ]
    where
      differ : offset fbo x' y' ≢ offset fbo (4 * x) (4 * y)
      differ e = let e' = (==_iff _ _).1 e in cc

  -- What a pixel's place holds after a store.
  pub framebuffer_put_pixel-read :
      (x y rgb x' y' : ℕ) (stores : List Store)
      → InFramebuffer fbo x' y'
      → shown fbo x' y' (framebuffer_put_pixel fbo x y rgb stores) ≡ (
          if ltb x fbo.width && ltb y fbo.height && is_scaled fbo x y x' y'
          then some rgb
          else shown fbo x' y' stores)
  unfolding shown framebuffer_put_pixel pixel_store
  framebuffer_put_pixel-read x y rgb x' y' stores i' =
      elim (Bool-cases (leb fbo.width x || leb fbo.height y)) [
        | inl outside ↦
            let other : (ltb x fbo.width && ltb y fbo.height && is_scaled fbo x y x' y') ≡ false =
              ground arith in
            rw (outside, other) refl
        | inr inside ↦
            let i : InFramebuffer fbo x y = ground arith in
            let at = pixel_store-scaled x y rgb i in
            elim (Bool-cases (is_scaled fbo x y x' y')) [
              | inl same ↦
                  let e = (==_iff (offset fbo x' y') (offset fbo (4 * x) (4 * y))).0 same in
                  let test : (ltb x fbo.width && ltb y fbo.height && is_scaled fbo x y x' y')
                      ≡ true =
                    ground arith in
                  rw (inside, test)
                    (read32-same (pixel_store fbo x y rgb) stores (fbo.address + offset fbo x' y')
                      (omega (arith, at, e)))
              | inr other ↦
                  let test : (ltb x fbo.width && ltb y fbo.height && is_scaled fbo x y x' y')
                      ≡ false =
                    ground arith in
                  rw (inside, test)
                    (read32-apart (pixel_store fbo x y rgb) stores (fbo.address + offset fbo x' y')
                      (apart x y x' y' rgb i other))
            ]
      ]

  -- On a framebuffer with pixels of 32 bits, in rows of whole words that have room for them, and four
  -- times the size of which fits behind its address: if all stores before were inside the
  -- framebuffer, and `FramebufferPutPixel` is called with a row of the upper quarter or one behind
  -- the last, then all stores afterwards are inside the framebuffer. A pixel of the framebuffer then
  -- has the colour, if the coordinates are those of a pixel of the framebuffer and the pixel at four
  -- times the coordinates, which behind the end of a row is one in a later row, is this one;
  -- otherwise it has the colour that it had before.
  pub framebuffer_put_pixel-shown :
      (x y rgb x' y' : ℕ) (stores : List Store)
      → InFramebuffer fbo x' y'
      → (fbo.height ≤ y) ⊎ (4 * (y + 1) ≤ fbo.height)
      → All (IsWithin fbo) stores
      → All (IsWithin fbo) (framebuffer_put_pixel fbo x y rgb stores)
        × (shown fbo x' y' (framebuffer_put_pixel fbo x y rgb stores) ≡ (
            if ltb x fbo.width && ltb y fbo.height && is_scaled fbo x y x' y'
            then some rgb
            else shown fbo x' y' stores))
  unfolding framebuffer_put_pixel
  framebuffer_put_pixel-shown x y rgb x' y' stores i' upper within =
      (kept, framebuffer_put_pixel-read x y rgb x' y' stores i')
    where
      kept : All (IsWithin fbo) (framebuffer_put_pixel fbo x y rgb stores)
      kept = elim (Bool-cases (leb fbo.width x || leb fbo.height y)) [
        | inl outside ↦ rw outside within
        | inr inside ↦
            let i : InFramebuffer fbo x y = ground arith in
            rw inside (pixel_store-IsWithin x y rgb i (omega (arith, upper, i.1)), within)
      ]
