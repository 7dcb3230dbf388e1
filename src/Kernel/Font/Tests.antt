-- ===== src/Kernel/Font/Tests.antt =====
-- The theorems on the font at the kernel's font, with its bitmaps at address 0x20000.
use amethyst_os_old.Base.{◌*◌, ◌≡◌, refl, some, inl, arith, get_elem?}
use amethyst_os_old.Kernel.Font.{Font, font_get_char, fontdata_6x8}
use amethyst_os_old.Kernel.Font.Bounds.{IsInTable, font_get_char_escapes}

-- The first line of `A`.
letter : get_elem? fontdata_6x8 (8 * b'A') ≡ some 0x10
unfolding fontdata_6x8
letter = refl

abbrev small_font : Font
small_font = record { width = 6; height = 8; byte_width = 1; char_count = 256; data_ptr = 0x20000 }

font_get_char_escapes_example : ¬ IsInTable small_font (font_get_char small_font 256)
font_get_char_escapes_example =
    font_get_char_escapes small_font 256 (omega arith) (omega arith) (omega arith) (omega arith)
      (inl refl)
