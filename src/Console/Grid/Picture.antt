-- ===== src/Console/Grid/Picture.antt =====
-- What a screen shows after `QPrint` (kernel/src/main.c): the text in its colour, on what was there.
use quakernel.Base.{
  length, All-map, All-append, ◌≢◌, ℕ, zero, suc, ◌+◌, ◌*◌, ◌≤◌, ◌<◌, ◌≡◌, refl, ◌∙◌, arith, Bool,
  false, ◌||◌, Bool-cases, inl, inr, some, List, [], ◌∷◌, All, if◌then◌else◌, u16,
}
use quakernel.Base.Exec.{returned}
use quakernel.Framebuffer.{Framebuffer, Store, pixel_store, framebuffer_put_pixel}
use quakernel.Framebuffer.Picture.{
  shown, InFramebuffer, IsWordPixels, IsWithin, is_scaled, pixel_store-IsWithin,
  framebuffer_put_pixel-read,
}
use quakernel.Console.{Screen, q_print}
use quakernel.Console.Grid.{
  bar, is_lit, glyph_rows, place, text_pixels, end_of, stored, columns_of, lines_of, screen_at,
}
use quakernel.Console.Grid.Painted.{q_print-text_pixels, place-room}

-- A pixel of the framebuffer is at four times the coordinates of a listed one.
pub is_painted : Framebuffer → (x y : ℕ) → List (ℕ × ℕ) → Bool
is_painted fbo x y [] = false
is_painted fbo x y ((px, py) ∷ pixels) = is_scaled fbo px py x y || is_painted fbo x y pixels

-- Coordinates in the upper quarter, so that four times them are still in the framebuffer.
abbrev pub IsUpper : Framebuffer → ℕ × ℕ → Type 0
IsUpper fbo (x, y) = 4 * (y + 1) ≤ fbo.height

abbrev pub Inside : (w h : ℕ) → ℕ × ℕ → Type 0
Inside w h (x, y) = (x < w) × (y < h)

module _ (w h : ℕ) where
  bar-Inside : (n px py : ℕ) → px + n ≤ w → py < h → All (Inside w h) (bar n px py)
  unfolding bar
  bar-Inside zero px py hx hy = tt
  bar-Inside (suc n) px py hx hy = ((omega arith, hy), bar-Inside n (px + 1) py (omega arith) hy)

  glyph_rows-Inside :
      (rounds row ch px py : ℕ)
      → px + 8 ≤ w
      → py + (row + rounds) ≤ h
      → All (Inside w h) (glyph_rows rounds row ch px py)
  unfolding glyph_rows
  glyph_rows-Inside zero row ch px py hx hy = tt
  glyph_rows-Inside (suc n) row ch px py hx hy =
      All-append (Inside w h) (if is_lit ch row then bar 8 px (py + row) else [])
        (glyph_rows n (row + 1) ch px py)
        (elim (Bool-cases (is_lit ch row)) [
          | inl lit ↦ rw lit (bar-Inside 8 px (py + row) hx (omega arith))
          | inr dark ↦ rw dark tt
        ])
        (glyph_rows-Inside n (row + 1) ch px py hx (omega arith))

place-plain :
    (columns lines ch column line : ℕ)
    → ch ≢ b'\n'
    → column < columns
    → place columns lines ch (column, line) ≡ (column, line)
unfolding place
place-plain columns lines ch column line plain room = ground arith

-- In the first line, from a cell on, if the line has room for the text and this has no line feed.
pub first_line-IsUpper :
    (fbo : Framebuffer) (columns lines column : ℕ) (text : List ℕ)
    → All (λ c. c ≢ b'\n') text
    → column + length text ≤ columns
    → 64 ≤ fbo.height
    → All (IsUpper fbo) (text_pixels columns lines (column, 0) text)
unfolding text_pixels
first_line-IsUpper fbo columns lines column [] plain room high = tt
first_line-IsUpper fbo columns lines column (ch ∷ text) plain room high =
    rw (place-plain columns lines ch column 0 plain.0 (omega arith)) (
      All-append (IsUpper fbo) (glyph_rows 16 0 ch (8 * column) (16 * 0))
        (text_pixels columns lines (column + 1, 0) text)
        (All-map (Inside (8 * column + 8) 16) (IsUpper fbo) (λ p i. omega (arith, i.1)) _
          (glyph_rows-Inside (8 * column + 8) 16 16 0 ch (8 * column) 0 (omega arith)
            (omega arith)))
        (first_line-IsUpper fbo columns lines (column + 1) text plain.1 (omega arith) high))

module _ (fbo : Framebuffer) (w : IsWordPixels fbo) where
  pub stored-shown :
      (rgb x y : ℕ) (pixels : List (ℕ × ℕ)) (before : List Store)
      → InFramebuffer fbo x y
      → All (Inside fbo.width fbo.height) pixels
      → shown fbo x y (stored fbo rgb pixels before)
        ≡ (if is_painted fbo x y pixels then some rgb else shown fbo x y before)
  unfolding stored is_painted
  stored-shown rgb x y [] before i inside = refl
  stored-shown rgb x y ((px, py) ∷ pixels) before i inside =
      let put : pixel_store fbo px py rgb ∷ before ≡ framebuffer_put_pixel fbo px py rgb before =
        unfold framebuffer_put_pixel in ground arith in
      stored-shown rgb x y pixels (pixel_store fbo px py rgb ∷ before) i inside.1
      ∙ rw (put, framebuffer_put_pixel-read fbo w px py rgb x y before i)
          (elim (Bool-cases (is_painted fbo x y pixels)) [
            | inl later ↦ ground arith
            | inr never ↦ ground arith
          ])

  pub stored-IsWithin :
      (rgb : ℕ) (pixels : List (ℕ × ℕ)) (before : List Store)
      → All (Inside fbo.width fbo.height) pixels
      → All (IsUpper fbo) pixels
      → All (IsWithin fbo) before
      → All (IsWithin fbo) (stored fbo rgb pixels before)
  unfolding stored
  stored-IsWithin rgb [] before inside upper h = h
  stored-IsWithin rgb ((px, py) ∷ pixels) before inside upper h =
      stored-IsWithin rgb pixels (pixel_store fbo px py rgb ∷ before) inside.1 upper.1
        (pixel_store-IsWithin fbo w px py rgb inside.0 upper.0, h)

module _ (fbo : Framebuffer) (wide : 8 < u16 fbo.width) (high : 16 < u16 fbo.height) where
  abbrev pub columns : ℕ
  columns = columns_of (u16 fbo.width)

  abbrev pub lines : ℕ
  lines = lines_of (u16 fbo.height)

  pub text_pixels-Inside :
      (text : List ℕ) (column line : ℕ)
      → line < lines
      → All (Inside fbo.width fbo.height) (text_pixels columns lines (column, line) text)
  unfolding text_pixels
  text_pixels-Inside [] column line h = tt
  text_pixels-Inside (ch ∷ text) column line h =
      let at = place columns lines ch (column, line) in
      let room =
        place-room fbo 0 (u16 fbo.width) (u16 fbo.height) (omega arith) (omega arith) ch column line
          h in
      All-append (Inside fbo.width fbo.height) (glyph_rows 16 0 ch (8 * at.0) (16 * at.1))
        (text_pixels columns lines (at.0 + 1, at.1) text)
        (glyph_rows-Inside fbo.width fbo.height 16 0 ch (8 * at.0) (16 * at.1) (omega arith)
          (omega arith))
        (text_pixels-Inside text (at.0 + 1) at.1 room.1)

  -- On a framebuffer with pixels of 32 bits, in rows of whole words that have room for them, four
  -- times the size of which fits behind its address, and which is larger than a character after its
  -- sizes are cut to 16 bits: a console whose cursor stands at a cell of the grid prints to the end a
  -- text of `char` values whose pixels from this cell on are in the upper quarter of the framebuffer.
  -- If all stores before were inside the framebuffer, then all stores afterwards are. And what the
  -- framebuffer then shows is the text at four times its size, in separate points: a pixel has the
  -- given colour, if it is the one at four times the coordinates of a pixel of the text, which behind
  -- the end of a row is one in a later row, and otherwise the colour that it had before.
  pub q_print-shown :
      (text : List ℕ) (rgb column line : ℕ) (before : List Store)
      → IsWordPixels fbo
      → line < lines
      → All (λ c. c < 256) text
      → All (IsUpper fbo) (text_pixels columns lines (column, line) text)
      → All (IsWithin fbo) before
      → (s' : Screen) × (q_print text rgb (screen_at fbo (column, line) before) ≡ returned tt s')
        × All (IsWithin fbo) s'.stores
        × ((x y : ℕ)
            → InFramebuffer fbo x y
            → shown fbo x y s'.stores ≡ (
                if is_painted fbo x y (text_pixels columns lines (column, line) text)
                then some rgb
                else shown fbo x y before))
  q_print-shown text rgb column line before w h chars upper within =
      let inside = text_pixels-Inside text column line h in
      (
        screen_at fbo (end_of columns lines (column, line) text)
            (stored fbo rgb (text_pixels columns lines (column, line) text) before),
        q_print-text_pixels fbo text rgb column line before wide high h chars,
        stored-IsWithin fbo w rgb _ before inside upper within,
        λ x y i. stored-shown fbo w rgb x y _ before i inside,
      )
