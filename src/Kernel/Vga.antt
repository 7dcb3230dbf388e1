-- ===== src/Kernel/Vga.antt =====
-- src/kernel/src/kernel/vga.c and src/kernel/include/kernel/vga.h: drawing in VGA mode 13h. Memory is a
-- function from addresses to bytes, and holds the frame buffer as well as the bitmaps.
pub mod Pixel
pub mod Rect
pub mod Bitmap
pub mod Glyph
pub mod Bytes
mod Tests
use Prim.Native.Nat.{bit_and}
use amethyst_os_old.Base.{
  ℕ, ◌+◌, ◌-◌, ◌*◌, ◌/◌, ◌%◌, ◌^◌, Bool, not, ◌||◌, ◌==◌, leb, if◌then◌else◌, for_to, to_u16, add32,
}

abbrev pub Store : Type 0
Store = ℕ → ℕ

abbrev pub poke : Store → ℕ → ℕ → Store
poke m a v b = if b == a then v else m b

-- `_VGA_ADDRESS`, `_VGA_WIDTH`, `_VGA_HEIGHT`
abbrev pub vga_address : ℕ
vga_address = 0xa0000

abbrev pub vga_width : ℕ
vga_width = 320

abbrev pub vga_height : ℕ
vga_height = 200

-- The parameters are `uint16_t`: a caller converts with `to_u16`.
pub vga_draw_pixel : ℕ → ℕ → ℕ → Store → Store
vga_draw_pixel x y color m =
    if leb vga_width x || leb vga_height y
    then m
    else poke m (vga_address + y * vga_width + x) color

-- `byte & (1 << k)`
pub bit_set : ℕ → ℕ → Bool
bit_set byte k = not (bit_and byte (2 ^ k) == 0)

-- `widthByteCount`
abbrev pub byte_count : ℕ → ℕ
byte_count w = if w % 8 == 0 then w / 8 else to_u16 (w / 8 + 1)

-- The colour of the pixel that the bit `bit` from the left of a byte stands for.
pub ink : ℕ → ℕ → ℕ → ℕ → ℕ
ink scan_byte bit bg fg = if bit_set scan_byte (7 - bit) then fg else bg

-- One round of the loop over the bits of a byte: `xoff` is `left + bit`, the line is `yoff`.
pub draw_bit : ℕ → ℕ → ℕ → ℕ → ℕ → ℕ → ℕ → ℕ → Store → Store
draw_bit x line w left scan_byte bg fg bit s =
    if leb w (left + bit)
    then s
    else vga_draw_pixel (to_u16 (x + (left + bit))) line (ink scan_byte bit bg fg) s

-- The first `n` rounds of that loop.
pub draw_bits : ℕ → ℕ → ℕ → ℕ → ℕ → ℕ → ℕ → ℕ → Store → Store
draw_bits x line w left scan_byte bg fg n m = for_to n (draw_bit x line w left scan_byte bg fg) m

-- The first `n` rounds of the loop over the bytes of one line, which starts at `row` in the bitmap.
pub draw_bytes : ℕ → ℕ → ℕ → ℕ → ℕ → ℕ → ℕ → ℕ → Store → Store
draw_bytes x line w bitmap row bg fg n m =
    for_to n (λ byte s. draw_bits x line w (byte * 8) (s (add32 bitmap (row + byte))) bg fg 8 s) m

pub vga_draw_bitmap : ℕ → ℕ → ℕ → ℕ → ℕ → ℕ → ℕ → Store → Store
vga_draw_bitmap x y w h bitmap bg fg m =
    for_to h
      (λ yoff s.
        draw_bytes x (to_u16 (y + yoff)) w bitmap (yoff * byte_count w) bg fg (byte_count w) s)
      m

-- The inner loop of `vga_draw_rect`.
pub draw_row : ℕ → ℕ → ℕ → ℕ → Store → Store
draw_row x line color n m = for_to n (λ xoff s. vga_draw_pixel (to_u16 (x + xoff)) line color s) m

pub vga_draw_rect : ℕ → ℕ → ℕ → ℕ → ℕ → Store → Store
vga_draw_rect x y w h color m = for_to h (λ yoff s. draw_row x (to_u16 (y + yoff)) color w s) m
