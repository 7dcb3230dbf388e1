-- ===== src/Kernel/Vga/Bytes.antt =====
-- Drawing in a colour of 8 bits keeps a memory of bytes.
use amethyst_os_old.Base.{
  ℕ, ◌+◌, ◌*◌, ◌<◌, arith, for_to_inv, to_u16, add32, Bool-cases, inl, inr, leb,
}
use amethyst_os_old.Kernel.Vga.{
  Store, vga_draw_pixel, byte_count, ink, draw_bit, draw_bits, draw_bytes, vga_draw_bitmap,
  draw_row, vga_draw_rect,
}
use amethyst_os_old.Kernel.Vga.Glyph.{IsMemory}

draw_pixel-IsMemory :
    (x y color : ℕ) (m : Store) → color < 256 → IsMemory m → IsMemory (vga_draw_pixel x y color m)
unfolding vga_draw_pixel
draw_pixel-IsMemory x y color m small bytes a = ground (arith, bytes a)

module _ (bg fg : ℕ) (bg_small : bg < 256) (fg_small : fg < 256) where
  draw_bit-IsMemory :
      (x line w left scan bit : ℕ) (m : Store)
      → IsMemory m
      → IsMemory (draw_bit x line w left scan bg fg bit m)
  unfolding draw_bit ink
  draw_bit-IsMemory x line w left scan bit m bytes = elim (Bool-cases (leb w (left + bit))) [
    | inl e ↦ rw e bytes
    | inr e ↦ rw e (
        draw_pixel-IsMemory (to_u16 (x + (left + bit))) line (ink scan bit bg fg) m (ground arith)
          bytes)
  ]

  draw_bytes-IsMemory :
      (x line w bitmap row n : ℕ) (m : Store)
      → IsMemory m
      → IsMemory (draw_bytes x line w bitmap row bg fg n m)
  unfolding draw_bytes draw_bits
  draw_bytes-IsMemory x line w bitmap row n m bytes =
      for_to_inv IsMemory n
        (λ byte s. draw_bits x line w (byte * 8) (s (add32 bitmap (row + byte))) bg fg 8 s) m
        (λ i s lt h.
          for_to_inv IsMemory 8 (draw_bit x line w (i * 8) (s (add32 bitmap (row + i))) bg fg) s
            (λ j t lt' h'. draw_bit-IsMemory x line w (i * 8) (s (add32 bitmap (row + i))) j t h')
            h)
        bytes

  pub draw_bitmap-IsMemory :
      (x y w h bitmap : ℕ) (m : Store)
      → IsMemory m
      → IsMemory (vga_draw_bitmap x y w h bitmap bg fg m)
  unfolding vga_draw_bitmap
  draw_bitmap-IsMemory x y w h bitmap m bytes =
      for_to_inv IsMemory h
        (λ yoff s.
          draw_bytes x (to_u16 (y + yoff)) w bitmap (yoff * byte_count w) bg fg (byte_count w) s)
        m
        (λ i s lt k.
          draw_bytes-IsMemory x (to_u16 (y + i)) w bitmap (i * byte_count w) (byte_count w) s k)
        bytes

pub draw_rect-IsMemory :
    (x y w h color : ℕ) (m : Store)
    → color < 256
    → IsMemory m
    → IsMemory (vga_draw_rect x y w h color m)
unfolding vga_draw_rect draw_row
draw_rect-IsMemory x y w h color m small bytes =
    for_to_inv IsMemory h (λ yoff s. draw_row x (to_u16 (y + yoff)) color w s) m
      (λ i s lt k.
        for_to_inv IsMemory w
          (λ xoff t. vga_draw_pixel (to_u16 (x + xoff)) (to_u16 (y + i)) color t) s
          (λ j t lt' k'. draw_pixel-IsMemory (to_u16 (x + j)) (to_u16 (y + i)) color t small k') k)
      bytes
