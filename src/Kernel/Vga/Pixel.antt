-- ===== src/Kernel/Vga/Pixel.antt =====
-- One pixel: where it is written, and that nothing else is.
use amethyst_os_old.Base.{ℕ, ◌+◌, ◌*◌, ◌≤◌, ◌<◌, ◌≡◌, ◌⊎◌, ◌&&◌, arith, ◌==◌, if◌then◌else◌}
use amethyst_os_old.Kernel.Vga.{Store, vga_address, vga_width, vga_height, vga_draw_pixel}

-- What the screen shows in column `px` of line `py`.
abbrev pub screen : Store → ℕ → ℕ → ℕ
screen m px py = m (vga_address + py * vga_width + px)

-- The address is not in the frame buffer.
abbrev pub IsOutside : ℕ → Type 0
IsOutside a = (a < vga_address) ⊎ (vga_address + vga_width * vga_height ≤ a)

pub screen-draw_pixel :
    (x y color : ℕ) (m : Store) (px py : ℕ)
    → px < vga_width
    → py < vga_height
    → screen (vga_draw_pixel x y color m) px py
      ≡ (if px == x && py == y then color else screen m px py)
unfolding vga_draw_pixel
screen-draw_pixel x y color m px py hx hy = ground arith

pub draw_pixel_outside :
    (x y color : ℕ) (m : Store) (a : ℕ) → IsOutside a → vga_draw_pixel x y color m a ≡ m a
unfolding vga_draw_pixel
draw_pixel_outside x y color m a out = ground arith
