-- ===== src/Kernel/Console/Bytes.antt =====
-- The types of the console's variables that the screen depends on: a memory of bytes, and two colours
-- of 8 bits.
use amethyst_os_old.Base.{
  ℕ, ◌*◌, ◌<◌, Option, none, some, List, [], ◌∷◌, arith, ◌==◌, Bool-cases, inl, inr, to_u16,
}
use amethyst_os_old.Kernel.Vga.Glyph.{IsMemory}
use amethyst_os_old.Kernel.Vga.Bytes.{draw_bitmap-IsMemory, draw_rect-IsMemory}
use amethyst_os_old.Kernel.Vga.{vga_width, vga_height}
use amethyst_os_old.Kernel.Font.{Font, font_get_char}
use amethyst_os_old.Kernel.Console.{
  Console, wrap_column, wrap_line, draw_char, process_char, putchar, puts, sign_extend, clear,
  set_fg_color, set_bg_color,
}

pub record IsTyped (t : Console) : Type 0 where
  pub bytes : IsMemory t.memory
  pub bg : t.bg_color < 256
  pub fg : t.fg_color < 256

draw_char-IsTyped : (f : Font) (c : ℕ) (t : Console) → IsTyped t → IsTyped (draw_char f c t)
unfolding draw_char
draw_char-IsTyped f c t h = record {
  bytes =
      draw_bitmap-IsMemory t.bg_color t.fg_color h.bg h.fg (to_u16 (t.cur_x * f.width))
        (to_u16 (t.cur_y * f.height)) f.width f.height (font_get_char f c) t.memory h.bytes;
  bg = h.bg;
  fg = h.fg;
}

wrap-IsTyped : (f : Font) (t : Console) → IsTyped t → IsTyped (wrap_line f (wrap_column f t))
unfolding wrap_line wrap_column
wrap-IsTyped f t h = record {
  bytes = λ a. ground (arith, h.bytes a);
  bg = ground (arith, h.bg);
  fg = ground (arith, h.fg);
}

process_char-IsTyped : (f : Font) (c : ℕ) (t : Console) → IsTyped t → IsTyped (process_char f c t)
unfolding process_char
process_char-IsTyped f c t h = elim (Bool-cases (c == b'\n')) [
  | inl e ↦ rw e (record { bytes = h.bytes; bg = h.bg; fg = h.fg })
  | inr e ↦ elim (Bool-cases (c == b'\r')) [
    | inl e' ↦ rw (e, e') (record { bytes = h.bytes; bg = h.bg; fg = h.fg })
    | inr e' ↦ rw (e, e') (draw_char-IsTyped f c t h)
  ]
]

pub putchar-IsTyped : (c : ℕ) (t : Console) → IsTyped t → IsTyped (putchar c t)
unfolding putchar
putchar-IsTyped c t h = chosen t.font
  where
    chosen :
        (o : Option Font)
        → IsTyped (elim o [ none ↦ t | some f ↦ process_char f c (wrap_line f (wrap_column f t)) ])
    chosen none = h
    chosen (some f) = process_char-IsTyped f c (wrap_line f (wrap_column f t)) (wrap-IsTyped f t h)

pub puts-IsTyped : (s : List ℕ) (t : Console) → IsTyped t → IsTyped (puts s t)
unfolding puts
puts-IsTyped [] t h = h
puts-IsTyped (c ∷ s) t h = elim (Bool-cases (c == 0)) [
  | inl e ↦ rw e h
  | inr e ↦ rw e (puts-IsTyped s (putchar (sign_extend c) t) (putchar-IsTyped (sign_extend c) t h))
]

pub clear-IsTyped : (t : Console) → IsTyped t → IsTyped (clear t)
unfolding clear
clear-IsTyped t h = record {
  bytes = draw_rect-IsMemory 0 0 vga_width vga_height t.bg_color t.memory h.bg h.bytes;
  bg = h.bg;
  fg = h.fg;
}

pub recolor-IsTyped :
    (bg fg : ℕ) (t : Console)
    → bg < 256
    → fg < 256
    → IsTyped t
    → IsTyped (set_fg_color fg (set_bg_color bg t))
unfolding set_fg_color set_bg_color
recolor-IsTyped bg fg t small small' h = record { bytes = h.bytes; bg = small; fg = small' }
