-- ===== src/Console/Safety.antt =====
-- Printing is safe: it returns, reads the font only inside its table, and asks only for pixels on
-- the screen.
use quakernel.Base.{ℕ, ◌+◌, ◌^◌, ◌≤◌, ◌<◌, ◌≡◌, refl, ap, ◌∙◌, arith, List, [], ◌∷◌, ◌++◌, All, u16}
use quakernel.Base.Exec.{returned}
use quakernel.Base.Ensures.{Keeps}
use quakernel.Font.{FontDesc, default_monospace}
use quakernel.Framebuffer.{Framebuffer, Store, pixel_store, framebuffer_put_pixel}
use quakernel.Console.Rounds.{font_height, q_print-Keeps}
use quakernel.Console.{
  FbConsole, Screen, default_fb_console, new_line, wrap_bottom, advance, put_pixel, q_print,
}

-- A console with the default font on a screen that is larger than a character, its cursor where a
-- character fits below the bottom.
pub record IsReady (fbo : Framebuffer) (c : FbConsole) : Type 0 where
  pub font : c.font ≡ default_monospace
  pub wide : (8 < c.width) × (c.width ≤ fbo.width) × (c.width < 2 ^ 16)
  pub high : (16 < c.height) × (c.height ≤ fbo.height) × (c.height < 2 ^ 16)
  pub cursor : (c.cursor_x < c.width) × (c.cursor_y + 16 < c.height)

-- The same with room for a character at the cursor.
pub record HasRoom (fbo : Framebuffer) (c : FbConsole) : Type 0 where
  pub ready : IsReady fbo c
  pub fits : c.cursor_x + 8 < c.width

-- The store of a pixel of the screen.
abbrev pub IsPixelStore : Framebuffer → ℕ → Store → Type 0
IsPixelStore fbo rgb store =
    (x : ℕ) × (y : ℕ) × (x < fbo.width) × (y < fbo.height) × (store ≡ pixel_store fbo x y rgb)

font_width : (c : FbConsole) → c.font ≡ default_monospace → c.font.width ≡ 8
font_width c e = ap (λ (f : FontDesc). f.width) e

-- The two tests of a round leave room for the character.
wrap-HasRoom :
    (fbo : Framebuffer) (c : FbConsole) (ch : ℕ)
    → IsReady fbo c
    → HasRoom fbo (wrap_bottom (new_line ch c))
unfolding wrap_bottom new_line
wrap-HasRoom fbo c ch r = ground (arith, font_width c r.font, font_height c r.font)

advance-IsReady : (fbo : Framebuffer) (c : FbConsole) → HasRoom fbo c → IsReady fbo (advance c)
unfolding advance
advance-IsReady fbo c r = ground (arith, font_width c r.ready.font)

module _ (fbo : Framebuffer) (before : List Store) (rgb : ℕ) where
  -- The screen shows `fbo`, and what was stored since `before` are pixels of it.
  pub record HasDrawn (s : Screen) : Type 0 where
    pub same : s.fbo ≡ fbo
    pub new : List Store
    pub stored : s.stores ≡ new ++ before
    pub pixels : All (IsPixelStore fbo rgb) new

  abbrev Ready : Screen → Type 0
  Ready s = HasDrawn s × IsReady fbo s.console

  abbrev Room : Screen → Type 0
  Room s = HasDrawn s × HasRoom fbo s.console

  put_pixel-HasDrawn :
      (x y : ℕ) (s : Screen)
      → x < fbo.width
      → y < fbo.height
      → HasDrawn s
      → HasDrawn (put_pixel x y rgb s)
  unfolding put_pixel framebuffer_put_pixel
  put_pixel-HasDrawn x y s hx hy d =
      let e : framebuffer_put_pixel s.fbo x y rgb s.stores ≡ pixel_store fbo x y rgb ∷ s.stores =
        rw d.same (ground arith) in
      record {
        same = d.same;
        new = pixel_store fbo x y rgb ∷ d.new;
        stored = e ∙ ap (◌∷◌ (pixel_store fbo x y rgb)) d.stored;
        pixels = ((x, y, hx, hy, refl), d.pixels);
      }

  HasDrawn-console : (s : Screen) (c : FbConsole) → HasDrawn s → HasDrawn (record s { console = c })
  HasDrawn-console s c d = record {
    same = d.same;
    new = d.new;
    stored = d.stored;
    pixels = d.pixels;
  }

  placed-Room :
      (ch : ℕ) (s : Screen)
      → Ready s
      → Room (record s { console = wrap_bottom (new_line ch s.console) })
  placed-Room ch s (d, r) = (HasDrawn-console s _ d, wrap-HasRoom fbo s.console ch r)

  painted-Room :
      (x y : ℕ) (s : Screen)
      → x < 8
      → y < 16
      → Room s
      → Room (put_pixel (u16 (s.console.cursor_x + x)) (u16 (s.console.cursor_y + y)) rgb s)
  painted-Room x y s hx hy (d, r) = (
    put_pixel-HasDrawn _ _ s (omega (arith, r.fits, r.ready.wide))
        (omega (arith, r.ready.cursor, r.ready.high)) d,
    unfold put_pixel in r,
  )

  moved-Ready : (s : Screen) → Room s → Ready (record s { console = advance s.console })
  moved-Ready s (d, r) = (HasDrawn-console s (advance s.console) d, advance-IsReady fbo s.console r)

  print-Keeps : (text : List ℕ) → All (λ c. c < 256) text → Keeps Ready (q_print text rgb)
  print-Keeps =
      q_print-Keeps rgb Ready Room (λ s r. r.1.ready.font) placed-Room painted-Room moved-Ready

default_fb_console-IsReady :
    (fbo : Framebuffer)
    → 8 < u16 fbo.width
    → 16 < u16 fbo.height
    → IsReady fbo (default_fb_console fbo)
unfolding default_fb_console
default_fb_console-IsReady fbo w h = record {
  font = refl;
  wide = omega arith;
  high = omega arith;
  cursor = omega arith;
}

-- On a framebuffer that is larger than a character after its sizes are cut to 16 bits, the new console
-- prints any text of `char` values to the end, and every store made is that of a pixel of the
-- framebuffer in the given colour.
pub q_print_safe :
    (fbo : Framebuffer) (text : List ℕ) (rgb : ℕ) (before : List Store)
    → 8 < u16 fbo.width
    → 16 < u16 fbo.height
    → All (λ c. c < 256) text
    → (s' : Screen) × (q_print text rgb
          (record { fbo = fbo; console = default_fb_console fbo; stores = before })
        ≡ returned tt s')
      × HasDrawn fbo before rgb s'
      × IsReady fbo s'.console
q_print_safe fbo text rgb before w h chars =
    let (s', e, done) =
      print-Keeps fbo before rgb text chars
        (record { fbo = fbo; console = default_fb_console fbo; stores = before })
        (
          record { same = refl; new = []; stored = refl; pixels = tt },
          default_fb_console-IsReady fbo w h,
        ) in
    (s', e, done.0, done.1)
