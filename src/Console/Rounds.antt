-- ===== src/Console/Rounds.antt =====
-- What each round of `QPrint` (kernel/src/main.c) keeps, the whole text keeps.
use quakernel.Base.{
  ℕ, ◌+◌, ◌*◌, ◌<◌, ◌≡◌, refl, ap, ◌∙◌, arith, not, Bool-cases, inl, inr, List, [], ◌∷◌, All, ◌==◌,
  u16, bit_and, some, get_elem?,
}
use quakernel.Base.Exec.{for_range, from_option, ◌>>=◌}
use quakernel.Base.Ensures.{Keeps, Ensures-then, for_range-Keeps}
use quakernel.Font.{FontDesc, default_monospace, font_data_8x16}
use quakernel.Font.Table.{default_monospace-Row}
use quakernel.Console.{
  FbConsole, Screen, new_line, wrap_bottom, advance, put_pixel, highest_glyph_bit_mask, draw_column,
  draw_row, draw_glyph, print_char, q_print,
}

pub font_height : (c : FbConsole) → c.font ≡ default_monospace → c.font.height ≡ 16
font_height c e = ap (λ (f : FontDesc). f.height) e

module _ (rgb : ℕ) where
  pub draw_row-default :
      (ch y b : ℕ) (s : Screen)
      → s.console.font ≡ default_monospace
      → get_elem? font_data_8x16 (ch * 16 + y) ≡ some b
      → draw_row ch rgb y s ≡ for_range 8 0 (draw_column b 128 rgb y) s
  unfolding draw_row highest_glyph_bit_mask
  draw_row-default ch y b s font e = rw (font, e, from_option) refl

  pub draw_glyph-default :
      (ch : ℕ) (s : Screen)
      → s.console.font ≡ default_monospace
      → draw_glyph ch rgb s ≡ for_range 16 0 (draw_row ch rgb) s
  unfolding draw_glyph
  draw_glyph-default ch s font =
      ap (λ (n : ℕ). for_range n 0 (draw_row ch rgb) s) (font_height s.console font)

-- `Ready` holds between two characters, and `Room` while one is painted.
module _ (rgb : ℕ) (Ready Room : Screen → Type 0)
    (font : (s : Screen) → Room s → s.console.font ≡ default_monospace)
    (placed : (ch : ℕ) (s : Screen)
      → Ready s
      → Room (record s { console = wrap_bottom (new_line ch s.console) }))
    (painted : (x y : ℕ) (s : Screen)
      → x < 8
      → y < 16
      → Room s
      → Room (put_pixel (u16 (s.console.cursor_x + x)) (u16 (s.console.cursor_y + y)) rgb s))
    (moved : (s : Screen) → Room s → Ready (record s { console = advance s.console })) where
  draw_column-Keeps :
      (row mask y x : ℕ) → y < 16 → x < 8 → Keeps Room (draw_column row mask rgb y x)
  unfolding draw_column
  draw_column-Keeps row mask y x hy hx s r = elim (Bool-cases (not (bit_and row mask == 0))) [
    | inl set ↦ (
      put_pixel (u16 (s.console.cursor_x + x)) (u16 (s.console.cursor_y + y)) rgb s,
      rw set refl,
      painted x y s hx hy r,
    )
    | inr clear ↦ (s, rw clear refl, r)
  ]

  draw_row-Keeps : (ch y : ℕ) → ch < 256 → y < 16 → Keeps Room (draw_row ch rgb y)
  draw_row-Keeps ch y hc hy s r =
      let (b, e, _) = default_monospace-Row ch y hc hy in
      let (s', e', h) =
        for_range-Keeps Room (draw_column b 128 rgb y) 8 0
          (λ x lt. draw_column-Keeps b 128 y x hy (omega arith)) s r in
      (s', draw_row-default rgb ch y b s (font s r) e ∙ e', h)

  draw_glyph-Keeps : (ch : ℕ) → ch < 256 → Keeps Room (draw_glyph ch rgb)
  draw_glyph-Keeps ch hc s r =
      let (s', e, h) =
        for_range-Keeps Room (draw_row ch rgb) 16 0 (λ y lt. draw_row-Keeps ch y hc (omega arith)) s
          r in
      (s', draw_glyph-default rgb ch s (font s r) ∙ e, h)

  print_char-Keeps : (ch : ℕ) → ch < 256 → Keeps Ready (print_char rgb ch)
  unfolding print_char
  print_char-Keeps ch hc s r =
      let (s', e, h) =
        draw_glyph-Keeps ch hc (record s { console = wrap_bottom (new_line ch s.console) })
          (placed ch s r) in
      (record s' { console = advance s'.console }, rw (e, ◌>>=◌) refl, moved s' h)

  -- Text of `char` values is printed to the end: the code returns, and what holds between two
  -- characters holds after it.
  pub q_print-Keeps : (text : List ℕ) → All (λ c. c < 256) text → Keeps Ready (q_print text rgb)
  unfolding q_print
  q_print-Keeps [] h s r = (s, refl, r)
  q_print-Keeps (c ∷ text) h s r =
      Ensures-then Ready (print_char rgb c) (q_print text rgb) s (print_char-Keeps c h.0 s r)
        (q_print-Keeps text h.1)
