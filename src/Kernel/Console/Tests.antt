-- ===== src/Kernel/Console/Tests.antt =====
-- The console with the kernel's font at address 0x20000, on a black screen.
use amethyst_os_old.Base.{◌+◌, ◌*◌, ◌≡◌, refl, some, inl, arith, codes}
use amethyst_os_old.Kernel.Vga.{Store}
use amethyst_os_old.Kernel.Console.Picture.{IsFitted}
use amethyst_os_old.Kernel.Console.Row.{ShowsRow, puts-ShowsRow}
use amethyst_os_old.Kernel.Vga.Pixel.{screen}
use amethyst_os_old.Kernel.Font.{Font, font_6x8}
use amethyst_os_old.Kernel.Console.{
  Console, putchar, puts, clear, process_char, draw_char, wrap_line, wrap_column,
}
use amethyst_os_old.Kernel.Console.Cursor.{IsReady, IsOnScreen, putchar-IsReady, puts-IsReady}
use amethyst_os_old.Kernel.Console.Loaded.{loaded, loaded-IsMemory, loaded-IsStored}
use amethyst_os_old.Kernel.Console.Draw.{IsLoaded, Shows, place, putchar-Shows, clear_lem}

abbrev black : Store
black a = 0

abbrev small_font : Font
small_font = record { width = 6; height = 8; byte_width = 1; char_count = 256; data_ptr = 0x20000 }

-- The cursor stands behind the last column of the last line but one.
abbrev ready : Console
ready = record {
  cur_x = 53;
  cur_y = 23;
  bg_color = 0;
  fg_color = 15;
  font = some small_font;
  memory = black;
}

ready-IsReady : IsReady small_font ready
ready-IsReady = record {
  chosen = refl;
  wide = omega arith;
  width_fits = omega arith;
  high = omega arith;
  height_fits = omega arith;
  column = omega arith;
  line = omega arith;
}

small_font-IsLoaded : IsLoaded small_font
small_font-IsLoaded = record {
  bytes = refl;
  count = omega arith;
  fits = omega arith;
  apart = inl (omega arith);
}

-- The character goes to the start of the next line.
wraps : (putchar b'A' ready).cur_x + 100 * (putchar b'A' ready).cur_y ≡ 1 + 100 * 24
unfolding putchar process_char draw_char wrap_line wrap_column
wraps = refl

-- A line feed on the last line is wrapped by the next character only.
line_feed : (puts (codes "A\nB") ready).cur_y ≡ 0
unfolding puts putchar process_char draw_char wrap_line wrap_column
line_feed = refl

putchar-IsReady_example : IsReady small_font (putchar b'A' ready)
putchar-IsReady_example = putchar-IsReady small_font b'A' ready ready-IsReady

puts-IsReady_example : IsReady small_font (puts (codes "A\nB") ready)
puts-IsReady_example = puts-IsReady small_font (codes "A\nB") ready ready-IsReady

putchar-Shows_example :
    IsOnScreen small_font (place small_font ready)
    × Shows small_font b'A' (place small_font ready) (putchar b'A' ready)
    × ((putchar b'A' ready).cur_x ≡ (place small_font ready).cur_x + 1)
    × ((putchar b'A' ready).cur_y ≡ (place small_font ready).cur_y)
putchar-Shows_example =
    putchar-Shows small_font b'A' ready small_font-IsLoaded (λ a. omega arith) ready-IsReady
      (omega arith) (omega arith) (omega arith)

clear_lem_example :
    (screen (clear ready).memory 10 10 ≡ 0)
    × ((clear ready).cur_x ≡ 53)
    × ((clear ready).cur_y ≡ 23)
clear_lem_example = clear_lem ready 10 10 (omega arith) (omega arith)

-- A console in that memory.
abbrev fitted : Console
fitted = record {
  cur_x = 10;
  cur_y = 24;
  bg_color = 1;
  fg_color = 14;
  font = some (font_6x8 0x2_0000);
  memory = loaded;
}

fitted-IsFitted : IsFitted 0x2_0000 fitted
unfolding font_6x8
fitted-IsFitted = record {
  ready = record {
    chosen = refl;
    wide = omega arith;
    width_fits = omega arith;
    high = omega arith;
    height_fits = omega arith;
    column = omega arith;
    line = omega arith;
  };
  typed = record { bytes = loaded-IsMemory; bg = omega arith; fg = omega arith };
  stored = loaded-IsStored;
}

puts-ShowsRow_example :
    ShowsRow (codes "Amethyst") fitted (puts (codes "Amethyst") fitted)
    × IsFitted 0x2_0000 (puts (codes "Amethyst") fitted)
    × ((puts (codes "Amethyst") fitted).cur_x ≡ 18)
    × ((puts (codes "Amethyst") fitted).cur_y ≡ 24)
puts-ShowsRow_example =
    puts-ShowsRow 0x2_0000 (codes "Amethyst") fitted (omega arith)
      (record { columns = omega arith; lines = omega arith }) fitted-IsFitted
