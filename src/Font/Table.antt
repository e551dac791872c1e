-- ===== src/Font/Table.antt =====
-- The table has a whole bitmap for each of its characters, and each row of it is a byte.
use quakernel.Base.{
  ℕ, zero, suc, ◌+◌, ◌*◌, ◌<◌, ◌≡◌, refl, arith, Bool, true, ◌&&◌, List, [], ◌∷◌, some, length,
  get_elem?, ltb,
}
use quakernel.Font.{font_data_8x16}

-- A row of a character's bitmap: the byte that is there, and that it is one.
abbrev pub Row : List ℕ → ℕ → Type 0
Row bytes i = (b : ℕ) × (get_elem? bytes i ≡ some b) × (b < 256)

bytes_only : List ℕ → Bool
bytes_only [] = true
bytes_only (b ∷ bs) = ltb b 256 && bytes_only bs

Row-within : (bytes : List ℕ) (i : ℕ) → bytes_only bytes ≡ true → i < length bytes → Row bytes i
unfolding bytes_only
Row-within [] i h lt = absurd (omega arith)
Row-within (b ∷ bs) zero h lt = (b, refl, ground arith)
Row-within (b ∷ bs) (suc i) h lt = Row-within bs i (ground arith) (omega arith)

font_data-bytes : bytes_only font_data_8x16 ≡ true
unfolding bytes_only font_data_8x16
font_data-bytes = refl

font_data-length : length font_data_8x16 ≡ 4096
unfolding font_data_8x16
font_data-length = refl

-- For every `char` and every row of a character the table holds a byte: the console never reads
-- outside of it.
pub default_monospace-Row : (c y : ℕ) → c < 256 → y < 16 → Row font_data_8x16 (c * 16 + y)
default_monospace-Row c y hc hy =
    Row-within font_data_8x16 (c * 16 + y) font_data-bytes (rw font_data-length (omega arith))
