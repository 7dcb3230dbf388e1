-- ===== src/Kernel/Vga/Rect.antt =====
-- What `vga_draw_rect` draws.
use amethyst_os_old.Base.{
  ℕ, zero, suc, ◌+◌, ◌^◌, ◌≤◌, ◌<◌, ◌≡◌, refl, ◌∙◌, ◌&&◌, arith, ◌==◌, ltb, leb, if◌then◌else◌,
  for_to_inv, to_u16,
}
use amethyst_os_old.Kernel.Vga.{
  Store, vga_width, vga_height, vga_draw_pixel, draw_row, vga_draw_rect,
}
use amethyst_os_old.Kernel.Vga.Pixel.{screen, IsOutside, screen-draw_pixel, draw_pixel_outside}

module _ (px py : ℕ) (hx : px < vga_width) (hy : py < vga_height) where
  screen-draw_row :
      (x line color n : ℕ) (m : Store)
      → x + n ≤ 2 ^ 16
      → screen (draw_row x line color n m) px py
        ≡ (if py == line && (leb x px && ltb px (x + n)) then color else screen m px py)
  unfolding draw_row
  screen-draw_row x line color zero m fits = ground arith
  screen-draw_row x line color (suc n) m fits =
      screen-draw_pixel (to_u16 (x + n)) line color (draw_row x line color n m) px py hx hy
      ∙ ground (arith, screen-draw_row x line color n m (omega arith))

  -- A rectangle that does not wrap round 65536 sets exactly the pixels of the screen inside it.
  pub screen-draw_rect :
      (x y w h color : ℕ) (m : Store)
      → x + w ≤ 2 ^ 16
      → y + h ≤ 2 ^ 16
      → screen (vga_draw_rect x y w h color m) px py ≡ (
          if (leb y py && ltb py (y + h)) && (leb x px && ltb px (x + w))
          then color
          else screen m px py)
  unfolding vga_draw_rect
  screen-draw_rect x y w zero color m fx fy = ground arith
  screen-draw_rect x y w (suc h) color m fx fy =
      screen-draw_row x (to_u16 (y + h)) color w (vga_draw_rect x y w h color m) fx
      ∙ ground (arith, screen-draw_rect x y w h color m fx (omega arith))

draw_row_outside :
    (x line color n : ℕ) (m : Store) (a : ℕ) → IsOutside a → draw_row x line color n m a ≡ m a
unfolding draw_row
draw_row_outside x line color n m a out =
    for_to_inv (λ s. s a ≡ m a) n (λ xoff s. vga_draw_pixel (to_u16 (x + xoff)) line color s) m
      (λ i s lt e. draw_pixel_outside (to_u16 (x + i)) line color s a out ∙ e) refl

-- Whatever its arguments, `vga_draw_rect` writes nowhere but in the frame buffer.
pub draw_rect_outside :
    (x y w h color : ℕ) (m : Store) (a : ℕ) → IsOutside a → vga_draw_rect x y w h color m a ≡ m a
unfolding vga_draw_rect
draw_rect_outside x y w h color m a out =
    for_to_inv (λ s. s a ≡ m a) h (λ yoff s. draw_row x (to_u16 (y + yoff)) color w s) m
      (λ i s lt e. draw_row_outside x (to_u16 (y + i)) color w s a out ∙ e) refl
