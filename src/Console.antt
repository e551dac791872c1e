-- ===== src/Console.antt =====
-- The text console of kernel/src/main.c. `gFbo` and `gFbConsole` are global in the source; here they
-- are a state, with the stores made to the framebuffer.
pub mod Rounds
pub mod Safety
pub mod Glyph
pub mod Grid
use quakernel.Base.{
  ℕ, ◌+◌, ◌-◌, ◌*◌, ◌^◌, Bool, ◌||◌, not, List, [], ◌∷◌, ltb, leb, ◌==◌, if◌then◌else◌, get_elem?,
  bit_and, u16, u64,
}
use quakernel.Base.Exec.{Exec, fault, from_option, pure, modify, when, for_range, ◌>>=◌, ◌>>◌}
use quakernel.Font.{FontDesc, default_monospace}
use quakernel.Framebuffer.{Framebuffer, Store, framebuffer_put_pixel}

-- `fb_console`
pub record FbConsole : Type 0 where
  pub font : FontDesc
  pub cursor_x : ℕ
  pub cursor_y : ℕ
  pub width : ℕ
  pub height : ℕ

-- `DefaultFbConsole`, of `gFbo`: its sizes are cut to 16 bits.
unfoldable pub default_fb_console : Framebuffer → FbConsole
default_fb_console fbo = record {
  font = default_monospace;
  cursor_x = 0;
  cursor_y = 0;
  width = u16 fbo.width;
  height = u16 fbo.height;
}

pub record Screen : Type 0 where
  pub fbo : Framebuffer
  pub console : FbConsole
  pub stores : List Store

-- The first two tests of a round of `QPrint`: a new line, and back to the top.
pub new_line : ℕ → FbConsole → FbConsole
new_line current_char c =
    if current_char == b'\n' || leb c.width (c.cursor_x + c.font.width)
    then record c { cursor_x = 0; cursor_y = u16 (c.cursor_y + c.font.height) }
    else c

pub wrap_bottom : FbConsole → FbConsole
wrap_bottom c = if leb c.height (c.cursor_y + c.font.height) then record c { cursor_y = 0 } else c

-- `gFbConsole.cursorX += gFbConsole.font->width`
pub advance : FbConsole → FbConsole
advance c = record c { cursor_x = u16 (c.cursor_x + c.font.width) }

pub put_pixel : ℕ → ℕ → ℕ → Screen → Screen
put_pixel x y rgb s = record s { stores = framebuffer_put_pixel s.fbo x y rgb s.stores }

-- `1ull << ( width - 1 )`, undefined for a count outside of 0 to 63.
pub highest_glyph_bit_mask : ℕ → Exec Screen ℕ
highest_glyph_bit_mask width = if width == 0 || ltb 64 width then fault else pure (2 ^ (width - 1))

-- One round of the loop over the columns. `currentGlyphX` is set afresh from the row in every round, so
-- its shift at the end of the round is lost.
pub draw_column : ℕ → ℕ → ℕ → ℕ → ℕ → Exec Screen (Unit {0})
draw_column current_glyph_row mask rgb y x s =
    let current_glyph_x = current_glyph_row in
    when (not (bit_and current_glyph_x mask == 0))
      (modify (put_pixel (u16 (s.console.cursor_x + x)) (u16 (s.console.cursor_y + y)) rgb)) s

-- One round of the loop over the rows of a glyph.
pub draw_row : ℕ → ℕ → ℕ → Exec Screen (Unit {0})
draw_row current_char rgb y s =
    (do
      current_glyph_row ←
          from_option (get_elem? s.console.font.bytes (current_char * s.console.font.height + y))
      mask ← highest_glyph_bit_mask s.console.font.width
      for_range s.console.font.width 0 (draw_column current_glyph_row mask rgb y))
      s

pub draw_glyph : ℕ → ℕ → Exec Screen (Unit {0})
draw_glyph current_char rgb s = for_range s.console.font.height 0 (draw_row current_char rgb) s

-- One round of the loop over the text.
pub print_char : ℕ → ℕ → Exec Screen (Unit {0})
print_char rgb current_char = do
  modify (λ s. record s { console = wrap_bottom (new_line current_char s.console) })
  draw_glyph current_char rgb
  modify (λ s. record s { console = advance s.console })

-- `QPrint`. The text is given by its characters up to the terminating 0; a `char` of the RISC-V ABI
-- is unsigned.
pub q_print : List ℕ → ℕ → Exec Screen (Unit {0})
q_print [] rgb = pure tt
q_print (c ∷ text) rgb = do print_char rgb c; q_print text rgb
