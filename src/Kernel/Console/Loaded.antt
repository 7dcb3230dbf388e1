-- ===== src/Kernel/Console/Loaded.antt =====
-- A memory with the font's table at 0x20000.
use amethyst_os_old.Base.{◌+◌, ◌-◌, ◌≡◌, refl, true, ◌&&◌, arith, leb, ltb, get_or, if◌then◌else◌}
use amethyst_os_old.Kernel.Vga.{Store}
use amethyst_os_old.Kernel.Vga.Glyph.{IsMemory}
use amethyst_os_old.Kernel.Font.{fontdata_6x8}
use amethyst_os_old.Kernel.Font.Table.{fontdata_byte}
use amethyst_os_old.Kernel.Console.Picture.{IsStored}

abbrev pub loaded : Store
loaded a =
    if leb 0x2_0000 a && ltb a (0x2_0000 + 2048) then get_or fontdata_6x8 (a - 0x2_0000) 0 else 0

pub loaded-IsMemory : IsMemory loaded
loaded-IsMemory a = ground (arith, fontdata_byte (a - 0x2_0000))

pub loaded-IsStored : IsStored 0x2_0000 loaded
loaded-IsStored = record {
  same = λ i lt.
      let there : 0x2_0000 + i - 0x2_0000 ≡ i = omega arith in
      let inside : leb 0x2_0000 (0x2_0000 + i) && ltb (0x2_0000 + i) (0x2_0000 + 2048) ≡ true =
        ground arith in
      rw (inside, there) refl;
  below = omega arith;
}
