-- ===== src/Font/Glyphs.antt =====
-- The bitmaps of `fontData8x16`, in two halves.
mod Low
mod High
pub use Low.*
pub use High.*
