-- ===== src/Kernel/Vga/Tests.antt =====
-- Drawing on a black screen, and the theorems at concrete rectangles.
use amethyst_os_old.Base.{
  ℕ, ◌+◌, ◌-◌, ◌*◌, ◌<◌, ◌≡◌, refl, inl, inr, ◌&&◌, arith, leb, ltb, ◌==◌, if◌then◌else◌, add32,
}
use amethyst_os_old.Kernel.Vga.{
  Store, byte_count, bit_set, ink, vga_draw_pixel, draw_row, vga_draw_rect, draw_bit, draw_bits,
  draw_bytes, vga_draw_bitmap,
}
use amethyst_os_old.Kernel.Vga.Pixel.{screen, IsOutside}
use amethyst_os_old.Kernel.Vga.Rect.{draw_rect_outside}
use amethyst_os_old.Kernel.Vga.Bitmap.{draw_bitmap_outside}
use amethyst_os_old.Kernel.Vga.Glyph.{IsMemory, glyph, screen-draw_bitmap}

abbrev black : Store
black a = 0

-- One line of a bitmap, 10 pixels wide, at address 16.
abbrev stripes : Store
stripes a = if a == 16 then 0b10100000 else if a == 17 then 0b01000000 else 0

rect_inside : screen (vga_draw_rect 5 6 3 2 9 black) 7 7 ≡ 9
unfolding vga_draw_rect draw_row vga_draw_pixel
rect_inside = refl

rect_beside : screen (vga_draw_rect 5 6 3 2 9 black) 8 7 ≡ 0
unfolding vga_draw_rect draw_row vga_draw_pixel
rect_beside = refl

bitmap_set : screen (vga_draw_bitmap 4 0 10 1 16 1 2 stripes) 13 0 ≡ 2
unfolding vga_draw_bitmap draw_bytes draw_bits draw_bit ink bit_set vga_draw_pixel
bitmap_set = refl

bitmap_clear : screen (vga_draw_bitmap 4 0 10 1 16 1 2 stripes) 5 0 ≡ 1
unfolding vga_draw_bitmap draw_bytes draw_bits draw_bit ink bit_set vga_draw_pixel
bitmap_clear = refl

draw_rect_outside_example : vga_draw_rect 319 199 5 5 9 black 0xafa00 ≡ black 0xafa00
draw_rect_outside_example = draw_rect_outside 319 199 5 5 9 black 0xafa00 (inr (omega arith))

stripes-IsMemory : IsMemory stripes
stripes-IsMemory a = ground arith

stripes-IsOutside : (k : ℕ) → k < 1 * byte_count 10 → IsOutside (add32 16 k)
stripes-IsOutside k lt = inl (omega arith)

screen-draw_bitmap_example : screen (vga_draw_bitmap 4 0 10 1 16 1 2 stripes) 13 0 ≡ (
    if leb 0 0 && ltb 0 (0 + 1) && (leb 4 13 && ltb 13 (4 + 10))
    then glyph stripes 16 10 1 2 (13 - 4) (0 - 0)
    else screen stripes 13 0)
screen-draw_bitmap_example =
    screen-draw_bitmap 13 0 (omega arith) (omega arith) 4 0 10 1 16 1 2 stripes stripes-IsMemory
      (omega arith) (omega arith) stripes-IsOutside

draw_bitmap_outside_example : vga_draw_bitmap 318 0 10 1 16 1 2 stripes 16 ≡ stripes 16
draw_bitmap_outside_example = draw_bitmap_outside 318 0 10 1 16 1 2 stripes 16 (inl (omega arith))
