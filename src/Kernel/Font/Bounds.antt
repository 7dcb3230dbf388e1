-- ===== src/Kernel/Font/Bounds.antt =====
-- Where `font_get_char` points: inside the bitmaps for a valid character, and outside them for the
-- others that it lets through.
use amethyst_os_old.Base.{
  ℕ, ◌+◌, ◌-◌, ◌*◌, ◌%◌, ◌^◌, ◌≤◌, ◌<◌, ◌≡◌, ◌⊎◌, some, inl, inr, ap, arith, get_elem?,
}
use amethyst_os_old.Kernel.Font.{Font, fontdata_6x8, font_6x8, font_get_char}
use amethyst_os_old.Kernel.Font.Table.{fontdata_get}

mul_mono : (g a b : ℕ) → a ≤ b → g * a ≤ g * b
mul_mono g a b le = grind arith

mul_suc_mono : (g a b : ℕ) → a < b → g * a + g ≤ g * b
mul_suc_mono g a b lt = grind arith

-- The bytes of one bitmap, and of all.
abbrev pub glyph_size : Font → ℕ
glyph_size f = f.byte_width * f.height

abbrev pub table_end : Font → ℕ
table_end f = f.data_ptr + glyph_size f * f.char_count

-- All bytes of the bitmap at `r` lie in the table of the font.
abbrev pub IsInTable : Font → ℕ → Type 0
IsInTable f r = (f.data_ptr ≤ r) × (r + glyph_size f ≤ table_end f)

-- The address of the character when nothing wraps.
pub font_get_char_exact :
    (f : Font) (chr : ℕ)
    → chr ≤ f.char_count
    → f.char_count < 2 ^ 31
    → table_end f < 2 ^ 32
    → font_get_char f chr ≡ f.data_ptr + glyph_size f * chr
unfolding font_get_char
font_get_char_exact f chr le count fits =
    ground (arith, mul_mono (glyph_size f) chr f.char_count le)

-- The address of the character `- k`.
negative_exact :
    (g d chr k : ℕ)
    → chr + k ≡ 2 ^ 32
    → k ≤ 128
    → g * 128 ≤ d
    → d < 2 ^ 32
    → (d + g * chr % 2 ^ 32) % 2 ^ 32 + g * k ≡ d
negative_exact g d chr k e small low fits = omega (arith, ap (λ t. g * t) e, mul_mono g k 128 small)

font_get_char_negative :
    (f : Font) (chr k : ℕ)
    → chr + k ≡ 2 ^ 32
    → k ≤ 128
    → glyph_size f * 128 ≤ f.data_ptr
    → f.data_ptr < 2 ^ 32
    → font_get_char f chr + glyph_size f * k ≡ f.data_ptr
unfolding font_get_char
font_get_char_negative f chr k e small low fits =
    ground (arith, negative_exact (glyph_size f) f.data_ptr chr k e small low fits)

-- For a character below `charCount`, itself below 2 ^ 31, all bytes of the bitmap lie in the font's
-- table, if that ends below 2 ^ 32.
pub font_get_char_within :
    (f : Font) (chr : ℕ)
    → chr < f.char_count
    → f.char_count < 2 ^ 31
    → table_end f < 2 ^ 32
    → IsInTable f (font_get_char f chr)
font_get_char_within f chr lt count fits = omega (
  arith,
  font_get_char_exact f chr (omega arith) count fits,
  mul_suc_mono (glyph_size f) chr f.char_count lt,
)

-- The guard lets two kinds of characters through whose bitmap is not in the table: the one equal to
-- `charCount`, and the negative ones, from -128 on, that a `char` above 127 is extended to. The
-- bitmaps are not empty, the table ends below 2 ^ 32, and the address of the table leaves room for
-- 128 bitmaps in front of it.
pub font_get_char_escapes :
    (f : Font) (chr : ℕ)
    → 0 < glyph_size f
    → f.char_count < 2 ^ 31
    → table_end f < 2 ^ 32
    → glyph_size f * 128 ≤ f.data_ptr
    → (chr ≡ f.char_count) ⊎ (2 ^ 32 - 128 ≤ chr) × (chr < 2 ^ 32)
    → ¬ IsInTable f (font_get_char f chr)
font_get_char_escapes f chr size count fits low (inl e) inside =
    omega (arith, font_get_char_exact f chr (omega arith) count fits, ap (λ c. glyph_size f * c) e)
font_get_char_escapes f chr size count fits low (inr (from, to)) inside =
    let k = 2 ^ 32 - chr in
    omega (
      arith,
      font_get_char_negative f chr k (omega arith) (omega arith) low (omega arith),
      mul_mono (glyph_size f) 1 k (omega arith),
      inside,
    )

-- Each byte of a character of the kernel's font is a byte of its table, and sets none but the six
-- pixels on the left that the font is wide. The table's address leaves room for its 2048 bytes.
pub font_6x8_bytes :
    (address chr line : ℕ)
    → address + 2048 < 2 ^ 32
    → chr < 256
    → line < 8
    → (i b : ℕ) × (font_get_char (font_6x8 address) chr + line ≡ address + i)
      × (get_elem? fontdata_6x8 i ≡ some b)
      × (b < 256)
      × (b % 4 ≡ 0)
unfolding font_6x8
font_6x8_bytes address chr line fits c l =
    let (b, e, small, left) = fontdata_get (8 * chr + line) (omega arith) in
    (
      8 * chr + line,
      b,
      omega (
        arith,
        font_get_char_exact (font_6x8 address) chr (omega arith) (omega arith) (omega arith),
      ),
      e,
      small,
      left,
    )
