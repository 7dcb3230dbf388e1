-- ===== src/Installer/Font.antt =====
-- src/installer/src/assets/font6x8.c: the font of the installer.
pub mod Low
pub mod High
use amethyst_os_old.Base.{ℕ, ◌≡◌, refl, List, ◌++◌}
use amethyst_os_old.Kernel.Font as KernelFont
use amethyst_os_old.Kernel.Font.{Font}
use amethyst_os_old.Installer.Font.Low.{
  glyphs_0, glyphs_15, glyphs_30, glyphs_45, glyphs_60, glyphs_75, glyphs_90, glyphs_105,
  glyphs_120,
}
use amethyst_os_old.Installer.Font.High.{
  glyphs_135, glyphs_150, glyphs_165, glyphs_180, glyphs_195, glyphs_210, glyphs_225, glyphs_240,
  glyphs_255,
}

-- `fontdata_6x8`
pub fontdata_6x8 : List ℕ
unfolding glyphs_0 glyphs_15 glyphs_30 glyphs_45 glyphs_60 glyphs_75 glyphs_90 glyphs_105 glyphs_120
    glyphs_135 glyphs_150 glyphs_165 glyphs_180 glyphs_195 glyphs_210 glyphs_225 glyphs_240
    glyphs_255
fontdata_6x8 =
    glyphs_0
    ++ (glyphs_15
        ++ (glyphs_30
            ++ (glyphs_45
                ++ (glyphs_60
                    ++ (glyphs_75
                        ++ (glyphs_90
                            ++ (glyphs_105
                                ++ (glyphs_120
                                    ++ (glyphs_135
                                        ++ (glyphs_150
                                            ++ (glyphs_165
                                                ++ (glyphs_180
                                                    ++ (glyphs_195
                                                        ++ (glyphs_210
                                                            ++ (glyphs_225
                                                            ++ (glyphs_240
                                                            ++ (glyphs_255)))))))))))))))))

-- `font_6x8`, with its bitmaps at `address`.
unfoldable pub font_6x8 : ℕ → Font
font_6x8 address = record {
  width = 6;
  height = 8;
  byte_width = 1;
  char_count = 256;
  data_ptr = address;
}

-- The installer draws with the font of the kernel.
pub font-kernel :
    (address : ℕ)
    → (fontdata_6x8 ≡ KernelFont.fontdata_6x8) × (font_6x8 address ≡ KernelFont.font_6x8 address)
unfolding fontdata_6x8 KernelFont.fontdata_6x8 font_6x8 KernelFont.font_6x8
font-kernel address = (refl, refl)
