-- ===== src/Font.antt =====
-- The console's font, kernel/src/font/font.c and font.h.
pub mod Table
mod Glyphs
use quakernel.Base.{ℕ, List, ◌++◌}
use Glyphs.{
  glyphs_00, glyphs_08, glyphs_10, glyphs_18, glyphs_20, glyphs_28, glyphs_30, glyphs_38, glyphs_40,
  glyphs_48, glyphs_50, glyphs_58, glyphs_60, glyphs_68, glyphs_70, glyphs_78, glyphs_80, glyphs_88,
  glyphs_90, glyphs_98, glyphs_a0, glyphs_a8, glyphs_b0, glyphs_b8, glyphs_c0, glyphs_c8, glyphs_d0,
  glyphs_d8, glyphs_e0, glyphs_e8, glyphs_f0, glyphs_f8,
}

-- `font_desc_t`; the bytes behind `data` are a list.
pub record FontDesc : Type 0 where
  pub bytes : List ℕ
  pub width : ℕ
  pub height : ℕ
  pub char_count : ℕ

-- `fontData8x16`
unfoldable pub font_data_8x16 : List ℕ
font_data_8x16 =
    glyphs_00 ++ glyphs_08 ++ glyphs_10 ++ glyphs_18 ++ glyphs_20 ++ glyphs_28 ++ glyphs_30
    ++ glyphs_38 ++ glyphs_40 ++ glyphs_48 ++ glyphs_50 ++ glyphs_58 ++ glyphs_60 ++ glyphs_68
    ++ glyphs_70 ++ glyphs_78 ++ glyphs_80 ++ glyphs_88 ++ glyphs_90 ++ glyphs_98 ++ glyphs_a0
    ++ glyphs_a8 ++ glyphs_b0 ++ glyphs_b8 ++ glyphs_c0 ++ glyphs_c8 ++ glyphs_d0 ++ glyphs_d8
    ++ glyphs_e0 ++ glyphs_e8 ++ glyphs_f0 ++ glyphs_f8

-- `defaultMonospace`
abbrev pub default_monospace : FontDesc
default_monospace = record { bytes = font_data_8x16; width = 8; height = 16; char_count = 256 }
