-- ===== src/Kernel/Vga/Glyph.antt =====
-- What a bitmap in memory shows, bit by bit, against what `vga_draw_bitmap` leaves on the screen.
use amethyst_os_old.Base.{
  ℕ, ◌+◌, ◌-◌, ◌*◌, ◌/◌, ◌%◌, ◌^◌, ◌≤◌, ◌<◌, ◌≡◌, refl, Bool, true, ◌&&◌, arith, ◌==◌, ltb, leb,
  if◌then◌else◌, add32, not,
}
use amethyst_os_old.Base.Table.{passes, passes_sound}
use amethyst_os_old.Kernel.Vga.{
  Store, vga_width, vga_height, byte_count, ink, bit_set, vga_draw_bitmap,
}
use amethyst_os_old.Kernel.Vga.Pixel.{screen, IsOutside}
use amethyst_os_old.Kernel.Vga.Bitmap.{screen-painted}

-- Every address holds a byte.
abbrev pub IsMemory : Store → Type 0
IsMemory m = (a : ℕ) → m a < 256

-- The colour of column `gx` and line `gy` of a bitmap in memory. A line starts at a whole byte, and
-- the column on the left of a byte is its bit of the value 128.
abbrev pub glyph : Store → ℕ → ℕ → ℕ → ℕ → ℕ → ℕ → ℕ
glyph m bitmap w bg fg gx gy =
    if m (add32 bitmap (gy * byte_count w + gx / 8)) / 2 ^ (7 - gx % 8) % 2 == 1 then fg else bg

-- `bit_set` against the binary digit of the byte.
abbrev bit_agrees : ℕ → ℕ → Bool
bit_agrees byte bit =
    let digit = byte / 2 ^ (7 - bit) % 2 == 1 in if bit_set byte (7 - bit) then digit else not digit

bit_table : passes (λ byte. passes (bit_agrees byte) 8) 256 ≡ true
unfolding passes bit_set
bit_table = refl

ink_lem :
    (byte bit bg fg : ℕ)
    → byte < 256
    → bit < 8
    → ink byte bit bg fg ≡ (if byte / 2 ^ (7 - bit) % 2 == 1 then fg else bg)
unfolding ink
ink_lem byte bit bg fg small lt =
    let row = passes_sound (λ b. passes (bit_agrees b) 8) 256 byte small bit_table in
    let agrees = passes_sound (bit_agrees byte) 8 bit lt row in ground (arith, agrees)

-- A bitmap that does not wrap round 65536, in a memory of bytes and outside the frame buffer, sets
-- exactly the pixels of the screen in its rectangle: each to the foreground colour where its bit in
-- the bitmap is 1, and to the background colour elsewhere.
pub screen-draw_bitmap :
    (px py : ℕ)
    → px < vga_width
    → py < vga_height
    → (x y w h bitmap bg fg : ℕ) (m : Store) → IsMemory m
    → x + w ≤ 2 ^ 16
    → y + h ≤ 2 ^ 16
    → ((k : ℕ) → k < h * byte_count w → IsOutside (add32 bitmap k))
    → screen (vga_draw_bitmap x y w h bitmap bg fg m) px py ≡ (
        if leb y py && ltb py (y + h) && (leb x px && ltb px (x + w))
        then glyph m bitmap w bg fg (px - x) (py - y)
        else screen m px py)
screen-draw_bitmap px py hx hy x y w h bitmap bg fg m bytes fx fy out =
    let gx = px - x in
    let byte = m (add32 bitmap ((py - y) * byte_count w + gx / 8)) in
    rw (← ink_lem byte (gx % 8) bg fg (bytes _) (omega arith))
      (screen-painted px py hx hy x y w h bitmap bg fg m fx fy out)
