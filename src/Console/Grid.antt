-- ===== src/Console/Grid.antt =====
-- A text on a grid of character cells: which pixels `QPrint` is meant to paint for it with the rows of
-- its font, and in which order. It is the reference for kernel/src/main.c.
pub mod Painted
pub mod Picture
use quakernel.Base.{
  ℕ, zero, suc, ◌+◌, ◌-◌, ◌*◌, ◌/◌, ◌^◌, ◌≤◌, ◌<◌, ◌≡◌, refl, sym, ap, ◌∙◌, arith, Bool, true,
  false, ◌||◌, not, Bool-cases, inl, inr, Option, none, some, List, [], ◌∷◌, ◌++◌, All, ltb, leb,
  ◌==◌, if◌then◌else◌, get_elem?, u16,
}
use quakernel.Base.Exec.{returned, for_range, ◌>>=◌}
use quakernel.Font.{font_data_8x16, default_monospace}
use quakernel.Font.Table.{default_monospace-Row}
use quakernel.Framebuffer.{Framebuffer, Store, pixel_store, framebuffer_put_pixel}
use quakernel.Console.{
  FbConsole, Screen, default_fb_console, new_line, wrap_bottom, advance, put_pixel, draw_row,
  draw_glyph, print_char, q_print,
}
use quakernel.Console.Glyph.{paint_columns, draw_row-all_or_nothing}

-- The pixels of a bar, from the left.
pub bar : ℕ → ℕ → ℕ → List (ℕ × ℕ)
bar zero px py = []
bar (suc n) px py = (px, py) ∷ bar n (px + 1) py

-- The top bit of a row of a glyph is set.
pub is_lit : ℕ → ℕ → Bool
is_lit ch row = elim (get_elem? font_data_8x16 (ch * 16 + row)) [
  | none ↦ false
  | some b ↦ not (ltb b 128)
]

-- The pixels of a glyph's rows from `row` on, in the cell whose corner is given.
pub glyph_rows : (rounds row ch px py : ℕ) → List (ℕ × ℕ)
glyph_rows zero row ch px py = []
glyph_rows (suc n) row ch px py =
    (if is_lit ch row then bar 8 px (py + row) else []) ++ glyph_rows n (row + 1) ch px py

-- The cell of a character, if the last one was followed by this column of this line: it begins a line
-- after a full one and at each line feed, and the line after the last is the first.
unfoldable pub place : (columns lines ch : ℕ) → ℕ × ℕ → ℕ × ℕ
place columns lines ch (column, line) =
    if ch == b'\n' || leb columns column
    then (0, if leb lines (line + 1) then 0 else line + 1)
    else (column, line)

-- The pixels of a text: each character is painted in its cell, line feeds as well.
pub text_pixels : (columns lines : ℕ) → ℕ × ℕ → List ℕ → List (ℕ × ℕ)
text_pixels columns lines at [] = []
text_pixels columns lines at (ch ∷ text) =
    let (column, line) = place columns lines ch at in
    glyph_rows 16 0 ch (8 * column) (16 * line) ++ text_pixels columns lines (column + 1, line) text

-- The cell behind a text: where the next character would be placed, before it is.
unfoldable pub end_of : (columns lines : ℕ) → ℕ × ℕ → List ℕ → ℕ × ℕ
end_of columns lines at [] = at
end_of columns lines at (ch ∷ text) =
    let (column, line) = place columns lines ch at in end_of columns lines (column + 1, line) text

-- The stores of pixels, one after the other.
pub stored : Framebuffer → ℕ → List (ℕ × ℕ) → List Store → List Store
stored fbo rgb [] before = before
stored fbo rgb ((x, y) ∷ pixels) before = stored fbo rgb pixels (pixel_store fbo x y rgb ∷ before)

-- The sizes of the grid that a screen has room for: a character must end before the last pixel.
abbrev pub columns_of : ℕ → ℕ
columns_of width = (width - 1) / 8

abbrev pub lines_of : ℕ → ℕ
lines_of height = (height - 1) / 16

-- A screen with a new console whose cursor has been moved to a cell.
abbrev pub screen_at : Framebuffer → ℕ × ℕ → List Store → Screen
screen_at fbo (column, line) stores = record {
  fbo = fbo;
  console = record (default_fb_console fbo) { cursor_x = 8 * column; cursor_y = 16 * line };
  stores = stores;
}
