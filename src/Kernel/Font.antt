-- ===== src/Kernel/Font.antt =====
-- src/kernel/src/libc/sys/font.c, src/kernel/include/sys/font.h and the font of the kernel,
-- src/kernel/src/kernel/fonts/font_linux_6x8.c.
pub mod Low
pub mod High
pub mod Table
pub mod Bounds
mod Tests
use amethyst_os_old.Base.{ℕ, ◌*◌, ◌^◌, ◌&&◌, List, ◌++◌, ltb, if◌then◌else◌, add32, mul32}
use amethyst_os_old.Kernel.Font.Low.{
  glyphs_0, glyphs_15, glyphs_30, glyphs_45, glyphs_60, glyphs_75, glyphs_90, glyphs_105,
  glyphs_120,
}
use amethyst_os_old.Kernel.Font.High.{
  glyphs_135, glyphs_150, glyphs_165, glyphs_180, glyphs_195, glyphs_210, glyphs_225, glyphs_240,
  glyphs_255,
}

-- `font_t`, less the name. `data` is the address of the bitmaps.
pub record Font : Type 0 where
  pub width : ℕ
  pub height : ℕ
  pub byte_width : ℕ
  pub char_count : ℕ
  pub data_ptr : ℕ

-- `chr` is an `int`, given by its bit pattern: it is negative from 2 ^ 31 on.
unfoldable pub font_get_char : Font → ℕ → ℕ
font_get_char f chr =
    if ltb chr (2 ^ 31) && ltb f.char_count chr
    then f.data_ptr
    else add32 f.data_ptr (mul32 (f.byte_width * f.height) chr)

-- `fontdata_6x8`
unfoldable pub fontdata_6x8 : List ℕ
unfolding glyphs_0 glyphs_15 glyphs_30 glyphs_45 glyphs_60 glyphs_75 glyphs_90 glyphs_105 glyphs_120
    glyphs_135 glyphs_150 glyphs_165 glyphs_180 glyphs_195 glyphs_210 glyphs_225 glyphs_240
    glyphs_255
fontdata_6x8 =
    glyphs_0
    ++ (glyphs_15
        ++ (glyphs_30
            ++ (glyphs_45
                ++ (glyphs_60
                    ++ (glyphs_75
                        ++ (glyphs_90
                            ++ (glyphs_105
                                ++ (glyphs_120
                                    ++ (glyphs_135
                                        ++ (glyphs_150
                                            ++ (glyphs_165
                                                ++ (glyphs_180
                                                    ++ (glyphs_195
                                                        ++ (glyphs_210
                                                            ++ (glyphs_225
                                                            ++ (glyphs_240
                                                            ++ glyphs_255))))))))))))))))

-- `font_6x8`, with its bitmaps at `address`.
unfoldable pub font_6x8 : ℕ → Font
font_6x8 address = record {
  width = 6;
  height = 8;
  byte_width = 1;
  char_count = 256;
  data_ptr = address;
}
