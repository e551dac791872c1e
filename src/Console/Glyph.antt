-- ===== src/Console/Glyph.antt =====
-- What a row of a glyph looks like on the screen.
use quakernel.Base.{
  ℕ, zero, suc, ◌+◌, ◌*◌, ◌<◌, ◌≡◌, refl, ◌∙◌, arith, true, false, not, Bool-cases, inl, inr, ltb,
  ◌==◌, if◌then◌else◌, u16, bit_and, some, get_elem?,
}
use quakernel.Base.Bits.{holds_below, holds_below-at}
use quakernel.Base.Exec.{returned, for_range, ◌>>=◌}
use quakernel.Font.{default_monospace, font_data_8x16}
use quakernel.Console.{Screen, put_pixel, draw_column, draw_row}
use quakernel.Console.Rounds.{draw_row-default}

-- Pixels next to one another, from column `first` of the character cell on.
unfoldable pub paint_columns : (count first y rgb : ℕ) → Screen → Screen
paint_columns zero first y rgb s = s
paint_columns (suc n) first y rgb s =
    paint_columns n (first + 1) y rgb
      (put_pixel (u16 (s.console.cursor_x + first)) (u16 (s.console.cursor_y + y)) rgb s)

draw_columns-set :
    (row mask rgb y n first : ℕ) (s : Screen)
    → not (bit_and row mask == 0) ≡ true
    → for_range n first (draw_column row mask rgb y) s ≡ returned tt (paint_columns n first y rgb s)
unfolding for_range draw_column paint_columns
draw_columns-set row mask rgb y zero first s h = refl
draw_columns-set row mask rgb y (suc n) first s h =
    rw (h, ◌>>=◌) (draw_columns-set row mask rgb y n (first + 1) _ h)

draw_columns-clear :
    (row mask rgb y n first : ℕ) (s : Screen)
    → not (bit_and row mask == 0) ≡ false
    → for_range n first (draw_column row mask rgb y) s ≡ returned tt s
unfolding for_range draw_column
draw_columns-clear row mask rgb y zero first s h = refl
draw_columns-clear row mask rgb y (suc n) first s h =
    rw (h, ◌>>=◌) (draw_columns-clear row mask rgb y n (first + 1) s h)

top_bit_table :
    holds_below (λ b. if ltb b 128 then bit_and b 128 == 0 else not (bit_and b 128 == 0)) 256 ≡ true
unfolding holds_below
top_bit_table = refl

top_bit : (b : ℕ) → b < 256 → not (bit_and b 128 == 0) ≡ not (ltb b 128)
top_bit b h = ground (
  arith,
  holds_below-at (λ b. if ltb b 128 then bit_and b 128 == 0 else not (bit_and b 128 == 0)) 256 b
      top_bit_table h,
)

-- A row of a glyph of the default font is drawn as one bar or not at all: if the top bit of its byte
-- is set, all eight columns are painted, whatever the other bits are, and otherwise none is.
pub draw_row-all_or_nothing :
    (ch y b rgb : ℕ) (s : Screen)
    → s.console.font ≡ default_monospace
    → get_elem? font_data_8x16 (ch * 16 + y) ≡ some b
    → b < 256
    → draw_row ch rgb y s ≡ returned tt (if ltb b 128 then s else paint_columns 8 0 y rgb s)
draw_row-all_or_nothing ch y b rgb s font e byte = elim (Bool-cases (ltb b 128)) [
  | inl low ↦ rw low (
      draw_row-default rgb ch y b s font e
      ∙ draw_columns-clear b 128 rgb y 8 0 s (ground (arith, top_bit b byte)))
  | inr high ↦ rw high (
      draw_row-default rgb ch y b s font e
      ∙ draw_columns-set b 128 rgb y 8 0 s (ground (arith, top_bit b byte)))
]
