-- ===== src/Installer/Console/Tests.antt =====
-- A text on the console of the installer, with the font at 64 KiB, and a console without a font.
use amethyst_os_old.Base.{
  ◌+◌, ◌-◌, ◌*◌, ◌/◌, ◌%◌, ◌<◌, ◌&&◌, true, leb, ltb, get_or, arith, if◌then◌else◌, ◌≡◌, refl, some,
  none, codes, replicate,
}
use amethyst_os_old.Kernel.Alloc.{empty_chunk}
use amethyst_os_old.Kernel.Console as KernelConsole
use amethyst_os_old.Kernel.Console.{Console}
use amethyst_os_old.Kernel.Font as KernelFont
use amethyst_os_old.Kernel.Font.{Font}
use amethyst_os_old.Installer.Font.{font_6x8, fontdata_6x8, font-kernel}
use amethyst_os_old.Installer.Error.{Error}
use amethyst_os_old.Installer.Console.{System, putchar, puts}
use amethyst_os_old.Kernel.Vga.{Store}
use amethyst_os_old.Kernel.Vga.Pixel.{screen}
use amethyst_os_old.Kernel.Vga.Glyph.{IsMemory}
use amethyst_os_old.Kernel.Font.Table.{fontdata_byte}
use amethyst_os_old.Installer.Console.Row.{drawing, IsInstalled, puts_row}
use amethyst_os_old.Installer.Console.Agrees.{HasBitmap, puts-kernel}

abbrev plain : Console
plain = record { cur_x = 0; cur_y = 0; bg_color = 0; fg_color = 0xf; font = none; memory = λ a. 0 }

abbrev system : System
system = record {
  text = record plain { font = some (font_6x8 0x1_0000) };
  heap = record { allocated = replicate 3 empty_chunk; freed = replicate 3 empty_chunk };
  err = Error.none_yet;
}

no_font : (putchar b'A' (record system { text = plain })).err ≡ Error.nofont
unfolding putchar
no_font = refl

shown_A : HasBitmap (font_6x8 0x1_0000) b'A'
unfolding KernelFont.font_get_char font_6x8
shown_A e = cc e

puts-kernel_example :
    puts (codes "A") system ≡ record system { text = KernelConsole.puts (codes "A") system.text }
puts-kernel_example = puts-kernel (font_6x8 0x1_0000) (codes "A") system refl (shown_A, tt)

-- A memory with the font's table at 64 KiB.
abbrev loaded : Store
loaded a =
    if leb 0x1_0000 a && ltb a (0x1_0000 + 2048) then get_or fontdata_6x8 (a - 0x1_0000) 0 else 0

loaded-IsMemory : IsMemory loaded
loaded-IsMemory a =
    let byte : get_or fontdata_6x8 (a - 0x1_0000) 0 < 256 =
      rw ((font-kernel 0).0) (fontdata_byte (a - 0x1_0000)) in
    ground (arith, byte)

abbrev with_table : System
with_table = record system { text = record (system.text) { memory = loaded } }

with_table-IsInstalled : IsInstalled 0x1_0000 with_table.text
with_table-IsInstalled = record {
  chosen = refl;
  typed = record { bytes = loaded-IsMemory; bg = omega arith; fg = omega arith };
  same = λ i lt.
      let there : 0x1_0000 + i - 0x1_0000 ≡ i = omega arith in
      let inside : leb 0x1_0000 (0x1_0000 + i) && ltb (0x1_0000 + i) (0x1_0000 + 2048) ≡ true =
        ground arith in
      rw (inside, there) refl;
  above = omega arith;
  below = omega arith;
}

puts_row_example :
    (screen ((puts (codes "CONTENT:") with_table).text).memory 8 3 ≡ (
      if leb (0 * 8) 3 && ltb 3 (0 * 8 + 8) && (leb (0 * 6) 8 && ltb 8 ((0 + 8) * 6))
      then drawing (get_or (codes "CONTENT:") (8 / 6 - 0) 0) 0 0xf (8 % 6) (3 - 0 * 8)
      else 0))
    × ((puts (codes "CONTENT:") with_table).heap ≡ with_table.heap)
    × ((puts (codes "CONTENT:") with_table).err ≡ Error.none_yet)
puts_row_example =
    puts_row 0x1_0000 (codes "CONTENT:") with_table 8 3 (omega arith)
      (record { columns = omega arith; lines = omega arith }) with_table-IsInstalled (omega arith)
      (omega arith)
