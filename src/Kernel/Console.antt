-- ===== src/Kernel/Console.antt =====
-- src/kernel/src/libc/stdio.c: the text console, drawn through the VGA driver. The file's static
-- variables and the memory are one record; `none` is the font pointer `NULL`.
pub mod Colors
pub mod Cursor
pub mod Draw
pub mod Text
pub mod Bytes
pub mod Picture
pub mod Row
pub mod Loaded
pub mod Cleared
mod Tests
use amethyst_os_old.Base.{
  ℕ, ◌+◌, ◌-◌, ◌*◌, ◌^◌, Option, none, some, List, [], ◌∷◌, ◌==◌, ltb, if◌then◌else◌, to_u16,
}
use amethyst_os_old.Kernel.Vga.{Store, vga_width, vga_height, vga_draw_bitmap, vga_draw_rect}
use amethyst_os_old.Kernel.Font.{Font, font_get_char}

pub record Console : Type 0 where
  pub cur_x : ℕ
  pub cur_y : ℕ
  pub bg_color : ℕ
  pub fg_color : ℕ
  pub font : Option Font
  pub memory : Store

-- The initial values, over the memory that the loader leaves.
pub console_start : Store → Console
console_start m = record {
  cur_x = 0;
  cur_y = 0;
  bg_color = 0;
  fg_color = 0xf;
  font = none;
  memory = m;
}

unfoldable pub set_font : Option Font → Console → Console
set_font f t = record t { font = f }

pub set_fg_color : ℕ → Console → Console
set_fg_color c t = record t { fg_color = c }

pub set_bg_color : ℕ → Console → Console
set_bg_color c t = record t { bg_color = c }

-- The two overflow checks of `putchar`.
unfoldable pub wrap_column : Font → Console → Console
wrap_column f t =
    if ltb vga_width ((t.cur_x + 1) * f.width)
    then record t { cur_x = 0; cur_y = t.cur_y + 1 }
    else t

unfoldable pub wrap_line : Font → Console → Console
wrap_line f t = if ltb vga_height ((t.cur_y + 1) * f.height) then record t { cur_y = 0 } else t

-- The `default` case of its `switch`.
unfoldable pub draw_char : Font → ℕ → Console → Console
draw_char f c t = record t {
  cur_x = t.cur_x + 1;
  memory =
      vga_draw_bitmap (to_u16 (t.cur_x * f.width)) (to_u16 (t.cur_y * f.height)) f.width f.height
        (font_get_char f c) t.bg_color t.fg_color t.memory;
}

-- The `switch`.
unfoldable pub process_char : Font → ℕ → Console → Console
process_char f c t =
    if c == b'\n'
    then record t { cur_x = 0; cur_y = t.cur_y + 1 }
    else if c == b'\r'
    then record t { cur_x = 0 }
    else draw_char f c t

-- `c` is an `int`, given by its bit pattern.
unfoldable pub putchar : ℕ → Console → Console
putchar c t = elim t.font [ none ↦ t | some f ↦ process_char f c (wrap_line f (wrap_column f t)) ]

-- A `char` as an `int`: `char` is signed.
abbrev pub sign_extend : ℕ → ℕ
sign_extend c = if ltb c 128 then c else 2 ^ 32 - 256 + c

-- The text ends at its first zero byte, or with the list.
unfoldable pub puts : List ℕ → Console → Console
puts [] t = t
puts (c ∷ s) t = if c == 0 then t else puts s (putchar (sign_extend c) t)

pub clear : Console → Console
clear t = record t { memory = vga_draw_rect 0 0 vga_width vga_height t.bg_color t.memory }

-- The bodies of `getkey` and `movecur` are commented out: `movecur` does nothing.
pub movecur : ℕ → ℕ → Console → Console
movecur px py t = t
