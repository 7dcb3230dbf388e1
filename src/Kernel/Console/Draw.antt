-- ===== src/Kernel/Console/Draw.antt =====
-- What `putchar` draws, and where.
use amethyst_os_old.Base.{
  ℕ, ◌+◌, ◌-◌, ◌*◌, ◌^◌, ◌≤◌, ◌<◌, ◌≡◌, ◌≢◌, ◌⊎◌, inl, inr, ◌&&◌, refl, some, arith, ltb, leb,
  if◌then◌else◌, to_u16, add32,
}
use amethyst_os_old.Kernel.Vga.{vga_address, vga_width, vga_height, byte_count}
use amethyst_os_old.Kernel.Vga.Pixel.{screen, IsOutside}
use amethyst_os_old.Kernel.Vga.Rect.{screen-draw_rect}
use amethyst_os_old.Kernel.Vga.Glyph.{IsMemory, glyph, screen-draw_bitmap}
use amethyst_os_old.Kernel.Font.{Font, font_get_char}
use amethyst_os_old.Kernel.Font.Bounds.{glyph_size, table_end, font_get_char_within}
use amethyst_os_old.Kernel.Console.{
  Console, wrap_column, wrap_line, draw_char, process_char, putchar, clear,
}
use amethyst_os_old.Kernel.Console.Cursor.{IsReady, IsOnScreen, wrap-IsOnScreen}

-- A font whose bitmaps have the size that its width and height say, and lie in memory below 2 ^ 32
-- and outside the frame buffer.
pub record IsLoaded (f : Font) : Type 0 where
  pub bytes : f.byte_width ≡ byte_count f.width
  pub count : f.char_count < 2 ^ 31
  pub fits : table_end f < 2 ^ 32
  pub apart : (table_end f ≤ vga_address) ⊎ (vga_address + vga_width * vga_height ≤ f.data_ptr)

-- The bitmap of a character lies outside the frame buffer.
bitmap-IsOutside :
    (f : Font) (c k : ℕ)
    → IsLoaded f
    → c < f.char_count
    → k < f.height * byte_count f.width
    → IsOutside (add32 (font_get_char f c) k)
bitmap-IsOutside f c k l lt small =
    let (from, to) = font_get_char_within f c lt l.count l.fits in
    let size : k < glyph_size f = rw l.bytes (omega arith) in
    elim l.apart [ inl below ↦ inl (omega arith) | inr above ↦ inr (omega arith) ]

-- Where `putchar` draws: the cursor after its overflow checks.
abbrev pub place : Font → Console → Console
place f t = wrap_line f (wrap_column f t)

-- The screen after the character `c` is drawn in the cell of the cursor of `t`.
abbrev pub Shows : Font → ℕ → Console → Console → Type 0
Shows f c t t' =
    (px py : ℕ)
    → px < vga_width
    → py < vga_height
    → screen t'.memory px py ≡ (
        if leb (t.cur_y * f.height) py
          && ltb py (t.cur_y * f.height + f.height)
          && (leb (t.cur_x * f.width) px && ltb px (t.cur_x * f.width + f.width))
        then glyph t.memory (font_get_char f c) f.width t.bg_color t.fg_color
            (px - t.cur_x * f.width) (py - t.cur_y * f.height)
        else screen t.memory px py)

draw_char-Shows :
    (f : Font) (c : ℕ) (t : Console)
    → IsLoaded f
    → IsMemory t.memory
    → IsOnScreen f t
    → c < f.char_count
    → Shows f c t (draw_char f c t)
unfolding draw_char
draw_char-Shows f c t l bytes on lt px py hx hy =
    let x : to_u16 (t.cur_x * f.width) ≡ t.cur_x * f.width = omega (arith, on.column) in
    let y : to_u16 (t.cur_y * f.height) ≡ t.cur_y * f.height = omega (arith, on.line) in
    rw (x, y)
      (screen-draw_bitmap px py hx hy (t.cur_x * f.width) (t.cur_y * f.height) f.width f.height
        (font_get_char f c) t.bg_color t.fg_color t.memory bytes (omega (arith, on.column))
        (omega (arith, on.line)) (λ k small. bitmap-IsOutside f c k l lt small))

-- The overflow checks leave the memory alone.
place-IsMemory : (f : Font) (t : Console) → IsMemory t.memory → IsMemory (place f t).memory
unfolding wrap_line wrap_column
place-IsMemory f t bytes a = ground (arith, bytes a)

pub putchar_printable :
    (f : Font) (c : ℕ) (t : Console)
    → t.font ≡ some f
    → c ≢ b'\n'
    → c ≢ b'\r'
    → putchar c t ≡ draw_char f c (place f t)
unfolding putchar process_char
putchar_printable f c t chosen line return = ground arith

-- With a loaded font, a memory of bytes and the cursor on the screen, a character below `char_count`
-- other than a line feed or a return is drawn whole on the screen, in the cell where the overflow
-- checks put the cursor: there each pixel shows the bit of the character's bitmap, and all other
-- pixels stay. The cursor moves one column on.
pub putchar-Shows :
    (f : Font) (c : ℕ) (t : Console)
    → IsLoaded f
    → IsMemory t.memory
    → IsReady f t
    → c < f.char_count
    → c ≢ b'\n'
    → c ≢ b'\r'
    → IsOnScreen f (place f t)
      × Shows f c (place f t) (putchar c t)
      × ((putchar c t).cur_x ≡ (place f t).cur_x + 1)
      × ((putchar c t).cur_y ≡ (place f t).cur_y)
unfolding draw_char
putchar-Shows f c t l bytes v lt line return =
    let on = wrap-IsOnScreen f t v in
    rw (putchar_printable f c t v.chosen line return)
      (on, draw_char-Shows f c (place f t) l (place-IsMemory f t bytes) on lt, refl, refl)

-- `clear` sets every pixel of the screen to the background colour, and leaves the cursor alone.
pub clear_lem :
    (t : Console) (px py : ℕ)
    → px < vga_width
    → py < vga_height
    → (screen (clear t).memory px py ≡ t.bg_color)
      × ((clear t).cur_x ≡ t.cur_x)
      × ((clear t).cur_y ≡ t.cur_y)
unfolding clear
clear_lem t px py hx hy = (
  ground (arith, screen-draw_rect px py hx hy 0 0 vga_width vga_height t.bg_color t.memory),
  refl,
  refl,
)
