-- ===== src/Kernel/Font/High.antt =====
-- src/kernel/src/kernel/fonts/font_linux_6x8.c: the bitmaps of characters 135 to 255, eight
-- bytes each.
use amethyst_os_old.Base.{ℕ, List, [], ◌∷◌}

-- Characters 135 to 149.
unfoldable pub glyphs_135 : List ℕ
glyphs_135 =
    0x00 ∷ 0x00 ∷ 0x38 ∷ 0x44 ∷ 0x40 ∷ 0x44 ∷ 0x38 ∷ 0x10 ∷ 0x18 ∷ 0x00 ∷ 0x38 ∷ 0x44 ∷ 0x7c ∷ 0x40
    ∷ 0x3c ∷ 0x00 ∷ 0x28 ∷ 0x00 ∷ 0x38 ∷ 0x44 ∷ 0x7c ∷ 0x40 ∷ 0x3c ∷ 0x00 ∷ 0x18 ∷ 0x00 ∷ 0x38
    ∷ 0x44 ∷ 0x7c ∷ 0x40 ∷ 0x3c ∷ 0x00 ∷ 0x28 ∷ 0x00 ∷ 0x30 ∷ 0x10 ∷ 0x10 ∷ 0x10 ∷ 0x38 ∷ 0x00
    ∷ 0x18 ∷ 0x00 ∷ 0x30 ∷ 0x10 ∷ 0x10 ∷ 0x10 ∷ 0x38 ∷ 0x00 ∷ 0x18 ∷ 0x00 ∷ 0x30 ∷ 0x10 ∷ 0x10
    ∷ 0x10 ∷ 0x38 ∷ 0x00 ∷ 0x44 ∷ 0x10 ∷ 0x28 ∷ 0x44 ∷ 0x7c ∷ 0x44 ∷ 0x44 ∷ 0x00 ∷ 0x30 ∷ 0x48
    ∷ 0x38 ∷ 0x44 ∷ 0x7c ∷ 0x44 ∷ 0x44 ∷ 0x00 ∷ 0x10 ∷ 0x7c ∷ 0x40 ∷ 0x78 ∷ 0x40 ∷ 0x40 ∷ 0x7c
    ∷ 0x00 ∷ 0x00 ∷ 0x00 ∷ 0x78 ∷ 0x14 ∷ 0x7c ∷ 0x50 ∷ 0x3c ∷ 0x00 ∷ 0x3c ∷ 0x50 ∷ 0x50 ∷ 0x78
    ∷ 0x50 ∷ 0x50 ∷ 0x5c ∷ 0x00 ∷ 0x18 ∷ 0x00 ∷ 0x38 ∷ 0x44 ∷ 0x44 ∷ 0x44 ∷ 0x38 ∷ 0x00 ∷ 0x28
    ∷ 0x00 ∷ 0x38 ∷ 0x44 ∷ 0x44 ∷ 0x44 ∷ 0x38 ∷ 0x00 ∷ 0x18 ∷ 0x00 ∷ 0x38 ∷ 0x44 ∷ 0x44 ∷ 0x44
    ∷ 0x38 ∷ 0x00 ∷ []

-- Characters 150 to 164.
unfoldable pub glyphs_150 : List ℕ
glyphs_150 =
    0x10 ∷ 0x28 ∷ 0x00 ∷ 0x44 ∷ 0x44 ∷ 0x4c ∷ 0x34 ∷ 0x00 ∷ 0x20 ∷ 0x10 ∷ 0x00 ∷ 0x44 ∷ 0x44 ∷ 0x4c
    ∷ 0x34 ∷ 0x00 ∷ 0x28 ∷ 0x00 ∷ 0x44 ∷ 0x44 ∷ 0x44 ∷ 0x3c ∷ 0x04 ∷ 0x38 ∷ 0x84 ∷ 0x38 ∷ 0x44
    ∷ 0x44 ∷ 0x44 ∷ 0x44 ∷ 0x38 ∷ 0x00 ∷ 0x88 ∷ 0x44 ∷ 0x44 ∷ 0x44 ∷ 0x44 ∷ 0x44 ∷ 0x38 ∷ 0x00
    ∷ 0x10 ∷ 0x38 ∷ 0x54 ∷ 0x50 ∷ 0x54 ∷ 0x38 ∷ 0x10 ∷ 0x00 ∷ 0x30 ∷ 0x48 ∷ 0x40 ∷ 0x70 ∷ 0x40
    ∷ 0x44 ∷ 0x78 ∷ 0x00 ∷ 0x44 ∷ 0x28 ∷ 0x7c ∷ 0x10 ∷ 0x7c ∷ 0x10 ∷ 0x10 ∷ 0x00 ∷ 0x70 ∷ 0x48
    ∷ 0x70 ∷ 0x48 ∷ 0x5c ∷ 0x48 ∷ 0x44 ∷ 0x00 ∷ 0x0c ∷ 0x10 ∷ 0x10 ∷ 0x38 ∷ 0x10 ∷ 0x10 ∷ 0x60
    ∷ 0x00 ∷ 0x18 ∷ 0x00 ∷ 0x38 ∷ 0x04 ∷ 0x3c ∷ 0x44 ∷ 0x3c ∷ 0x00 ∷ 0x08 ∷ 0x10 ∷ 0x00 ∷ 0x30
    ∷ 0x10 ∷ 0x10 ∷ 0x38 ∷ 0x00 ∷ 0x08 ∷ 0x10 ∷ 0x00 ∷ 0x38 ∷ 0x44 ∷ 0x44 ∷ 0x38 ∷ 0x00 ∷ 0x08
    ∷ 0x10 ∷ 0x00 ∷ 0x44 ∷ 0x44 ∷ 0x4c ∷ 0x34 ∷ 0x00 ∷ 0x34 ∷ 0x58 ∷ 0x00 ∷ 0x58 ∷ 0x64 ∷ 0x44
    ∷ 0x44 ∷ 0x00 ∷ []

-- Characters 165 to 179.
unfoldable pub glyphs_165 : List ℕ
glyphs_165 =
    0x58 ∷ 0x44 ∷ 0x64 ∷ 0x54 ∷ 0x4c ∷ 0x44 ∷ 0x44 ∷ 0x00 ∷ 0x38 ∷ 0x04 ∷ 0x3c ∷ 0x44 ∷ 0x3c ∷ 0x00
    ∷ 0x7c ∷ 0x00 ∷ 0x38 ∷ 0x44 ∷ 0x44 ∷ 0x44 ∷ 0x38 ∷ 0x00 ∷ 0x7c ∷ 0x00 ∷ 0x10 ∷ 0x00 ∷ 0x10
    ∷ 0x20 ∷ 0x40 ∷ 0x44 ∷ 0x38 ∷ 0x00 ∷ 0x00 ∷ 0x00 ∷ 0x00 ∷ 0x7c ∷ 0x40 ∷ 0x40 ∷ 0x00 ∷ 0x00
    ∷ 0x00 ∷ 0x00 ∷ 0x00 ∷ 0x7c ∷ 0x04 ∷ 0x04 ∷ 0x00 ∷ 0x00 ∷ 0x20 ∷ 0x24 ∷ 0x28 ∷ 0x10 ∷ 0x28
    ∷ 0x44 ∷ 0x08 ∷ 0x1c ∷ 0x20 ∷ 0x24 ∷ 0x28 ∷ 0x10 ∷ 0x28 ∷ 0x58 ∷ 0x3c ∷ 0x08 ∷ 0x10 ∷ 0x00
    ∷ 0x10 ∷ 0x10 ∷ 0x10 ∷ 0x10 ∷ 0x10 ∷ 0x00 ∷ 0x00 ∷ 0x00 ∷ 0x24 ∷ 0x48 ∷ 0x90 ∷ 0x48 ∷ 0x24
    ∷ 0x00 ∷ 0x00 ∷ 0x00 ∷ 0x90 ∷ 0x48 ∷ 0x24 ∷ 0x48 ∷ 0x90 ∷ 0x00 ∷ 0x10 ∷ 0x44 ∷ 0x10 ∷ 0x44
    ∷ 0x10 ∷ 0x44 ∷ 0x10 ∷ 0x44 ∷ 0xa8 ∷ 0x54 ∷ 0xa8 ∷ 0x54 ∷ 0xa8 ∷ 0x54 ∷ 0xa8 ∷ 0x54 ∷ 0xdc
    ∷ 0x74 ∷ 0xdc ∷ 0x74 ∷ 0xdc ∷ 0x74 ∷ 0xdc ∷ 0x74 ∷ 0x10 ∷ 0x10 ∷ 0x10 ∷ 0x10 ∷ 0x10 ∷ 0x10
    ∷ 0x10 ∷ 0x10 ∷ []

-- Characters 180 to 194.
unfoldable pub glyphs_180 : List ℕ
glyphs_180 =
    0x10 ∷ 0x10 ∷ 0x10 ∷ 0xf0 ∷ 0x10 ∷ 0x10 ∷ 0x10 ∷ 0x10 ∷ 0x10 ∷ 0x10 ∷ 0xf0 ∷ 0x10 ∷ 0xf0 ∷ 0x10
    ∷ 0x10 ∷ 0x10 ∷ 0x28 ∷ 0x28 ∷ 0x28 ∷ 0xe8 ∷ 0x28 ∷ 0x28 ∷ 0x28 ∷ 0x28 ∷ 0x00 ∷ 0x00 ∷ 0x00
    ∷ 0xf8 ∷ 0x28 ∷ 0x28 ∷ 0x28 ∷ 0x28 ∷ 0x00 ∷ 0x00 ∷ 0xf0 ∷ 0x10 ∷ 0xf0 ∷ 0x10 ∷ 0x10 ∷ 0x10
    ∷ 0x28 ∷ 0x28 ∷ 0xe8 ∷ 0x08 ∷ 0xe8 ∷ 0x28 ∷ 0x28 ∷ 0x28 ∷ 0x28 ∷ 0x28 ∷ 0x28 ∷ 0x28 ∷ 0x28
    ∷ 0x28 ∷ 0x28 ∷ 0x28 ∷ 0x00 ∷ 0x00 ∷ 0xf8 ∷ 0x08 ∷ 0xe8 ∷ 0x28 ∷ 0x28 ∷ 0x28 ∷ 0x28 ∷ 0x28
    ∷ 0xe8 ∷ 0x08 ∷ 0xf8 ∷ 0x00 ∷ 0x00 ∷ 0x00 ∷ 0x28 ∷ 0x28 ∷ 0x28 ∷ 0xf8 ∷ 0x00 ∷ 0x00 ∷ 0x00
    ∷ 0x00 ∷ 0x10 ∷ 0x10 ∷ 0xf0 ∷ 0x10 ∷ 0xf0 ∷ 0x00 ∷ 0x00 ∷ 0x00 ∷ 0x00 ∷ 0x00 ∷ 0x00 ∷ 0xf0
    ∷ 0x10 ∷ 0x10 ∷ 0x10 ∷ 0x10 ∷ 0x10 ∷ 0x10 ∷ 0x10 ∷ 0x1c ∷ 0x00 ∷ 0x00 ∷ 0x00 ∷ 0x00 ∷ 0x10
    ∷ 0x10 ∷ 0x10 ∷ 0xfc ∷ 0x00 ∷ 0x00 ∷ 0x00 ∷ 0x00 ∷ 0x00 ∷ 0x00 ∷ 0x00 ∷ 0xfc ∷ 0x10 ∷ 0x10
    ∷ 0x10 ∷ 0x10 ∷ []

-- Characters 195 to 209.
unfoldable pub glyphs_195 : List ℕ
glyphs_195 =
    0x10 ∷ 0x10 ∷ 0x10 ∷ 0x1c ∷ 0x10 ∷ 0x10 ∷ 0x10 ∷ 0x10 ∷ 0x00 ∷ 0x00 ∷ 0x00 ∷ 0xfc ∷ 0x00 ∷ 0x00
    ∷ 0x00 ∷ 0x00 ∷ 0x10 ∷ 0x10 ∷ 0x10 ∷ 0xfc ∷ 0x10 ∷ 0x10 ∷ 0x10 ∷ 0x10 ∷ 0x10 ∷ 0x10 ∷ 0x1c
    ∷ 0x10 ∷ 0x1c ∷ 0x10 ∷ 0x10 ∷ 0x10 ∷ 0x28 ∷ 0x28 ∷ 0x28 ∷ 0x2c ∷ 0x28 ∷ 0x28 ∷ 0x28 ∷ 0x28
    ∷ 0x28 ∷ 0x28 ∷ 0x2c ∷ 0x20 ∷ 0x3c ∷ 0x00 ∷ 0x00 ∷ 0x00 ∷ 0x00 ∷ 0x00 ∷ 0x3c ∷ 0x20 ∷ 0x2c
    ∷ 0x28 ∷ 0x28 ∷ 0x28 ∷ 0x28 ∷ 0x28 ∷ 0xec ∷ 0x00 ∷ 0xfc ∷ 0x00 ∷ 0x00 ∷ 0x00 ∷ 0x00 ∷ 0x00
    ∷ 0xfc ∷ 0x00 ∷ 0xec ∷ 0x28 ∷ 0x28 ∷ 0x28 ∷ 0x28 ∷ 0x28 ∷ 0x2c ∷ 0x20 ∷ 0x2c ∷ 0x28 ∷ 0x28
    ∷ 0x28 ∷ 0x00 ∷ 0x00 ∷ 0xfc ∷ 0x00 ∷ 0xfc ∷ 0x00 ∷ 0x00 ∷ 0x00 ∷ 0x28 ∷ 0x28 ∷ 0xec ∷ 0x00
    ∷ 0xec ∷ 0x28 ∷ 0x28 ∷ 0x28 ∷ 0x10 ∷ 0x10 ∷ 0xfc ∷ 0x00 ∷ 0xfc ∷ 0x00 ∷ 0x00 ∷ 0x00 ∷ 0x28
    ∷ 0x28 ∷ 0x28 ∷ 0xfc ∷ 0x00 ∷ 0x00 ∷ 0x00 ∷ 0x00 ∷ 0x00 ∷ 0x00 ∷ 0xfc ∷ 0x00 ∷ 0xfc ∷ 0x10
    ∷ 0x10 ∷ 0x10 ∷ []

-- Characters 210 to 224.
unfoldable pub glyphs_210 : List ℕ
glyphs_210 =
    0x00 ∷ 0x00 ∷ 0x00 ∷ 0xfc ∷ 0x28 ∷ 0x28 ∷ 0x28 ∷ 0x28 ∷ 0x28 ∷ 0x28 ∷ 0x28 ∷ 0x3c ∷ 0x00 ∷ 0x00
    ∷ 0x00 ∷ 0x00 ∷ 0x10 ∷ 0x10 ∷ 0x1c ∷ 0x10 ∷ 0x1c ∷ 0x00 ∷ 0x00 ∷ 0x00 ∷ 0x00 ∷ 0x00 ∷ 0x1c
    ∷ 0x10 ∷ 0x1c ∷ 0x10 ∷ 0x10 ∷ 0x10 ∷ 0x00 ∷ 0x00 ∷ 0x00 ∷ 0x3c ∷ 0x28 ∷ 0x28 ∷ 0x28 ∷ 0x28
    ∷ 0x28 ∷ 0x28 ∷ 0x28 ∷ 0xfc ∷ 0x28 ∷ 0x28 ∷ 0x28 ∷ 0x28 ∷ 0x10 ∷ 0x10 ∷ 0xfc ∷ 0x10 ∷ 0xfc
    ∷ 0x10 ∷ 0x10 ∷ 0x10 ∷ 0x10 ∷ 0x10 ∷ 0x10 ∷ 0xf0 ∷ 0x00 ∷ 0x00 ∷ 0x00 ∷ 0x00 ∷ 0x00 ∷ 0x00
    ∷ 0x00 ∷ 0x1c ∷ 0x10 ∷ 0x10 ∷ 0x10 ∷ 0x10 ∷ 0xfc ∷ 0xfc ∷ 0xfc ∷ 0xfc ∷ 0xfc ∷ 0xfc ∷ 0xfc
    ∷ 0xfc ∷ 0x00 ∷ 0x00 ∷ 0x00 ∷ 0x00 ∷ 0xfc ∷ 0xfc ∷ 0xfc ∷ 0xfc ∷ 0xe0 ∷ 0xe0 ∷ 0xe0 ∷ 0xe0
    ∷ 0xe0 ∷ 0xe0 ∷ 0xe0 ∷ 0xe0 ∷ 0x1c ∷ 0x1c ∷ 0x1c ∷ 0x1c ∷ 0x1c ∷ 0x1c ∷ 0x1c ∷ 0x1c ∷ 0xfc
    ∷ 0xfc ∷ 0xfc ∷ 0xfc ∷ 0x00 ∷ 0x00 ∷ 0x00 ∷ 0x00 ∷ 0x00 ∷ 0x00 ∷ 0x34 ∷ 0x48 ∷ 0x48 ∷ 0x48
    ∷ 0x34 ∷ 0x00 ∷ []

-- Characters 225 to 239.
unfoldable pub glyphs_225 : List ℕ
glyphs_225 =
    0x24 ∷ 0x44 ∷ 0x48 ∷ 0x48 ∷ 0x44 ∷ 0x44 ∷ 0x58 ∷ 0x40 ∷ 0x7c ∷ 0x44 ∷ 0x44 ∷ 0x40 ∷ 0x40 ∷ 0x40
    ∷ 0x40 ∷ 0x00 ∷ 0x00 ∷ 0x00 ∷ 0x7c ∷ 0x28 ∷ 0x28 ∷ 0x28 ∷ 0x28 ∷ 0x00 ∷ 0x7c ∷ 0x24 ∷ 0x10
    ∷ 0x08 ∷ 0x10 ∷ 0x24 ∷ 0x7c ∷ 0x00 ∷ 0x00 ∷ 0x00 ∷ 0x3c ∷ 0x48 ∷ 0x48 ∷ 0x48 ∷ 0x30 ∷ 0x00
    ∷ 0x00 ∷ 0x00 ∷ 0x48 ∷ 0x48 ∷ 0x48 ∷ 0x48 ∷ 0x74 ∷ 0x40 ∷ 0x00 ∷ 0x00 ∷ 0x7c ∷ 0x10 ∷ 0x10
    ∷ 0x10 ∷ 0x0c ∷ 0x00 ∷ 0x10 ∷ 0x38 ∷ 0x44 ∷ 0x44 ∷ 0x38 ∷ 0x10 ∷ 0x38 ∷ 0x00 ∷ 0x38 ∷ 0x44
    ∷ 0x44 ∷ 0x7c ∷ 0x44 ∷ 0x44 ∷ 0x38 ∷ 0x00 ∷ 0x38 ∷ 0x44 ∷ 0x44 ∷ 0x44 ∷ 0x44 ∷ 0x28 ∷ 0x6c
    ∷ 0x00 ∷ 0x18 ∷ 0x20 ∷ 0x18 ∷ 0x24 ∷ 0x24 ∷ 0x24 ∷ 0x18 ∷ 0x00 ∷ 0x00 ∷ 0x00 ∷ 0x38 ∷ 0x54
    ∷ 0x54 ∷ 0x54 ∷ 0x38 ∷ 0x00 ∷ 0x00 ∷ 0x04 ∷ 0x38 ∷ 0x54 ∷ 0x54 ∷ 0x38 ∷ 0x40 ∷ 0x00 ∷ 0x3c
    ∷ 0x40 ∷ 0x40 ∷ 0x38 ∷ 0x40 ∷ 0x40 ∷ 0x3c ∷ 0x00 ∷ 0x38 ∷ 0x44 ∷ 0x44 ∷ 0x44 ∷ 0x44 ∷ 0x44
    ∷ 0x44 ∷ 0x00 ∷ []

-- Characters 240 to 254.
unfoldable pub glyphs_240 : List ℕ
glyphs_240 =
    0x00 ∷ 0xfc ∷ 0x00 ∷ 0xfc ∷ 0x00 ∷ 0xfc ∷ 0x00 ∷ 0x00 ∷ 0x10 ∷ 0x10 ∷ 0x7c ∷ 0x10 ∷ 0x10 ∷ 0x00
    ∷ 0x7c ∷ 0x00 ∷ 0x20 ∷ 0x10 ∷ 0x08 ∷ 0x10 ∷ 0x20 ∷ 0x00 ∷ 0x38 ∷ 0x00 ∷ 0x08 ∷ 0x10 ∷ 0x20
    ∷ 0x10 ∷ 0x08 ∷ 0x00 ∷ 0x38 ∷ 0x00 ∷ 0x0c ∷ 0x10 ∷ 0x10 ∷ 0x10 ∷ 0x10 ∷ 0x10 ∷ 0x10 ∷ 0x10
    ∷ 0x10 ∷ 0x10 ∷ 0x10 ∷ 0x10 ∷ 0x10 ∷ 0x10 ∷ 0x10 ∷ 0x60 ∷ 0x00 ∷ 0x10 ∷ 0x00 ∷ 0x7c ∷ 0x00
    ∷ 0x10 ∷ 0x00 ∷ 0x00 ∷ 0x00 ∷ 0x20 ∷ 0x54 ∷ 0x08 ∷ 0x20 ∷ 0x54 ∷ 0x08 ∷ 0x00 ∷ 0x30 ∷ 0x48
    ∷ 0x48 ∷ 0x30 ∷ 0x00 ∷ 0x00 ∷ 0x00 ∷ 0x00 ∷ 0x00 ∷ 0x00 ∷ 0x10 ∷ 0x38 ∷ 0x10 ∷ 0x00 ∷ 0x00
    ∷ 0x00 ∷ 0x00 ∷ 0x00 ∷ 0x00 ∷ 0x10 ∷ 0x00 ∷ 0x00 ∷ 0x00 ∷ 0x00 ∷ 0x04 ∷ 0x08 ∷ 0x08 ∷ 0x50
    ∷ 0x50 ∷ 0x20 ∷ 0x20 ∷ 0x00 ∷ 0x60 ∷ 0x50 ∷ 0x50 ∷ 0x50 ∷ 0x00 ∷ 0x00 ∷ 0x00 ∷ 0x00 ∷ 0x60
    ∷ 0x10 ∷ 0x20 ∷ 0x70 ∷ 0x00 ∷ 0x00 ∷ 0x00 ∷ 0x00 ∷ 0x00 ∷ 0x38 ∷ 0x38 ∷ 0x38 ∷ 0x38 ∷ 0x38
    ∷ 0x38 ∷ 0x00 ∷ []

-- Characters 255 to 255.
unfoldable pub glyphs_255 : List ℕ
glyphs_255 = 0x00 ∷ 0x00 ∷ 0x00 ∷ 0x00 ∷ 0x00 ∷ 0x00 ∷ 0x00 ∷ 0x00 ∷ []
