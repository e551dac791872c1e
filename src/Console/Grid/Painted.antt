-- ===== src/Console/Grid/Painted.antt =====
-- `QPrint` paints a text as the grid of cells has it.
use quakernel.Base.{
  ℕ, zero, suc, ◌+◌, ◌*◌, ◌^◌, ◌≤◌, ◌<◌, ◌≡◌, refl, sym, ap, ◌∙◌, arith, Bool-cases, inl, inr, List,
  [], ◌∷◌, ◌++◌, All, ltb, if◌then◌else◌, u16,
}
use quakernel.Base.Exec.{returned, for_range, ◌>>=◌}
use quakernel.Font.{default_monospace}
use quakernel.Font.Table.{default_monospace-Row}
use quakernel.Framebuffer.{Framebuffer, Store, pixel_store, framebuffer_put_pixel}
use quakernel.Console.{
  FbConsole, Screen, default_fb_console, new_line, wrap_bottom, advance, put_pixel, draw_row,
  print_char, q_print,
}
use quakernel.Console.Rounds.{draw_glyph-default}
use quakernel.Console.Glyph.{paint_columns, draw_row-all_or_nothing}
use quakernel.Console.Grid.{
  bar, is_lit, glyph_rows, place, text_pixels, end_of, stored, columns_of, lines_of, screen_at,
}

stored-append :
    (fbo : Framebuffer) (rgb : ℕ) (p q : List (ℕ × ℕ)) (before : List Store)
    → stored fbo rgb (p ++ q) before ≡ stored fbo rgb q (stored fbo rgb p before)
unfolding stored
stored-append fbo rgb [] q before = refl
stored-append fbo rgb ((x, y) ∷ p) q before =
    stored-append fbo rgb p q (pixel_store fbo x y rgb ∷ before)

module _ (fbo : Framebuffer) (rgb w h : ℕ) (wide : (8 < w) × (w ≤ fbo.width) × (w < 2 ^ 16))
    (high : (16 < h) × (h ≤ fbo.height) × (h < 2 ^ 16)) where
  -- The screen whose cursor stands at a column of a line.
  abbrev console_at : ℕ → ℕ → FbConsole
  console_at column line = record {
    font = default_monospace;
    cursor_x = 8 * column;
    cursor_y = 16 * line;
    width = w;
    height = h;
  }

  abbrev printing_at : ℕ × ℕ → List Store → Screen
  printing_at (column, line) stores = record {
    fbo = fbo;
    console = console_at column line;
    stores = stores;
  }

  put_pixel-at :
      (column line x y : ℕ) (stores : List Store)
      → 8 * column + x < w
      → 16 * line + y < h
      → put_pixel
          (u16 (8 * column + x))
          (u16 (16 * line + y))
          rgb
          (printing_at (column, line) stores)
        ≡ printing_at (column, line) (pixel_store fbo (8 * column + x) (16 * line + y) rgb ∷ stores)
  unfolding put_pixel framebuffer_put_pixel
  put_pixel-at column line x y stores hx hy =
      let ex : u16 (8 * column + x) ≡ 8 * column + x = omega arith in
      let ey : u16 (16 * line + y) ≡ 16 * line + y = omega arith in rw (ex, ey) (ground arith)

  paint_columns-bar :
      (n first row column line : ℕ) (stores : List Store)
      → 8 * column + (first + n) < w
      → 16 * line + row < h
      → paint_columns n first row rgb (printing_at (column, line) stores)
        ≡ printing_at
            (column, line)
            (stored fbo rgb (bar n (8 * column + first) (16 * line + row)) stores)
  unfolding paint_columns bar stored
  paint_columns-bar zero first row column line stores hx hy = refl
  paint_columns-bar (suc n) first row column line stores hx hy =
      let e : 8 * column + first + 1 ≡ 8 * column + (first + 1) = omega arith in
      rw (put_pixel-at column line first row stores (omega arith) hy, e)
        (paint_columns-bar n (first + 1) row column line _ (omega arith) hy)

  -- One round of the loop over the rows.
  draw_row-at :
      (ch row column line : ℕ) (stores : List Store)
      → ch < 256
      → row < 16
      → 8 * column + 8 < w
      → 16 * line + 16 < h
      → draw_row ch rgb row (printing_at (column, line) stores)
        ≡ returned tt (
            printing_at
              (column, line)
              (stored fbo rgb
                (if is_lit ch row then bar 8 (8 * column) (16 * line + row) else [])
                stores))
  unfolding is_lit stored
  draw_row-at ch row column line stores hc hr hx hy =
      let (b, e, byte) = default_monospace-Row ch row hc hr in
      let zero_first : 8 * column + 0 ≡ 8 * column = omega arith in
      draw_row-all_or_nothing ch row b rgb (printing_at (column, line) stores) refl e byte
      ∙ elim (Bool-cases (ltb b 128)) [
        | inl low ↦ rw (e, is_lit, low) refl
        | inr lit ↦
            rw (e, is_lit, lit)
              (ap (returned tt) (
                rw zero_first at
                  (paint_columns-bar 8 0 row column line stores (omega arith) (omega arith))))
      ]

  draw_rows-at :
      (rounds row ch column line : ℕ) (stores : List Store)
      → ch < 256
      → row + rounds ≤ 16
      → 8 * column + 8 < w
      → 16 * line + 16 < h
      → for_range rounds row (draw_row ch rgb) (printing_at (column, line) stores)
        ≡ returned tt (
            printing_at
              (column, line)
              (stored fbo rgb (glyph_rows rounds row ch (8 * column) (16 * line)) stores))
  unfolding for_range glyph_rows stored
  draw_rows-at zero row ch column line stores hc hr hx hy = refl
  draw_rows-at (suc n) row ch column line stores hc hr hx hy =
      rw (draw_row-at ch row column line stores hc (omega arith) hx hy, ◌>>=◌)
        (draw_rows-at n (row + 1) ch column line _ hc (omega arith) hx hy
          ∙ ap (λ l. returned tt (printing_at (column, line) l))
              (sym (
                stored-append fbo rgb
                  (if is_lit ch row then bar 8 (8 * column) (16 * line + row) else [])
                  (glyph_rows n (row + 1) ch (8 * column) (16 * line)) stores)))

  -- The two tests of a round move the cursor to the character's cell.
  wrap-at :
      (ch column line : ℕ)
      → line < lines_of h
      → wrap_bottom (new_line ch (console_at column line)) ≡ (
          let (column', line') = place (columns_of w) (lines_of h) ch (column, line) in
          console_at column' line')
  unfolding wrap_bottom new_line place
  wrap-at ch column line hl = ground arith

  pub place-room :
      (ch column line : ℕ)
      → line < lines_of h
      → let (column', line') = place (columns_of w) (lines_of h) ch (column, line) in
        (column' < columns_of w) × (line' < lines_of h)
  unfolding place
  place-room ch column line hl = ground arith

  print_char-at :
      (ch column line : ℕ) (stores : List Store)
      → ch < 256
      → line < lines_of h
      → let (column', line') = place (columns_of w) (lines_of h) ch (column, line) in
        print_char rgb ch (printing_at (column, line) stores)
        ≡ returned tt (
            printing_at
              (column' + 1, line')
              (stored fbo rgb (glyph_rows 16 0 ch (8 * column') (16 * line')) stores))
  unfolding print_char advance
  print_char-at ch column line stores hc hl =
      let room = place-room ch column line hl in
      let at = place (columns_of w) (lines_of h) ch (column, line) in
      let moved : u16 (8 * at.0 + 8) ≡ 8 * (at.0 + 1) = omega arith in
      rw
        (
          wrap-at ch column line hl,
          draw_glyph-default rgb ch (printing_at at stores) refl,
          draw_rows-at 16 0 ch at.0 at.1 stores hc (omega arith) (omega arith) (omega arith),
          ◌>>=◌,
          moved,
        )
        refl

  q_print-at :
      (text : List ℕ) (column line : ℕ) (stores : List Store)
      → All (λ c. c < 256) text
      → line < lines_of h
      → let at : ℕ × ℕ = (column, line) in
        q_print text rgb (printing_at at stores)
        ≡ returned tt (
            printing_at
              (end_of (columns_of w) (lines_of h) at text)
              (stored fbo rgb (text_pixels (columns_of w) (lines_of h) at text) stores))
  unfolding q_print text_pixels end_of stored
  q_print-at [] column line stores hc hl = refl
  q_print-at (ch ∷ text) column line stores hc hl =
      let at = place (columns_of w) (lines_of h) ch (column, line) in
      let glyph = glyph_rows 16 0 ch (8 * at.0) (16 * at.1) in
      let following : ℕ × ℕ = (at.0 + 1, at.1) in
      rw (print_char-at ch column line stores hc.0 hl, ◌>>=◌)
        (q_print-at text (at.0 + 1) at.1 (stored fbo rgb glyph stores) hc.1
            (place-room ch column line hl).1
          ∙ ap
              (λ l. returned tt (printing_at (end_of (columns_of w) (lines_of h) following text) l))
              (sym (
                stored-append fbo rgb glyph (text_pixels (columns_of w) (lines_of h) following text)
                  stores)))

-- On a framebuffer that is larger than a character after its sizes are cut to 16 bits, a console
-- whose cursor stands at a cell of the grid paints exactly the pixels of a text from this cell on,
-- one after the other in the order of the text: each character in the next cell of the line, a new
-- line after a full one and at each line feed, and the first line after the last. Of a glyph it
-- paints the rows whose top bit is set. The cursor is left at the cell behind the text, from which a
-- next call goes on, and nothing else changes.
pub q_print-text_pixels :
    (fbo : Framebuffer) (text : List ℕ) (rgb column line : ℕ) (before : List Store)
    → let columns = columns_of (u16 fbo.width) in
      let lines = lines_of (u16 fbo.height) in
      8 < u16 fbo.width
      → 16 < u16 fbo.height
      → line < lines
      → All (λ c. c < 256) text
      → q_print text rgb (screen_at fbo (column, line) before)
        ≡ returned tt (
            screen_at fbo
              (end_of columns lines (column, line) text)
              (stored fbo rgb (text_pixels columns lines (column, line) text) before))
unfolding default_fb_console
q_print-text_pixels fbo text rgb column line before w h inside chars =
    q_print-at fbo rgb (u16 fbo.width) (u16 fbo.height) (omega arith) (omega arith) text column line
      before chars inside
