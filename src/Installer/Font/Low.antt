-- ===== src/Installer/Font/Low.antt =====
-- src/installer/src/assets/font6x8.c: the bitmaps of characters 0 to 134.
use amethyst_os_old.Base.{ℕ, List, [], ◌∷◌}

-- Characters 0 to 14.
unfoldable pub glyphs_0 : List ℕ
glyphs_0 =
    0x00 ∷ 0x00 ∷ 0x00 ∷ 0x00 ∷ 0x00 ∷ 0x00 ∷ 0x00 ∷ 0x00 ∷ 0x78 ∷ 0x84 ∷ 0xcc ∷ 0x84 ∷ 0xcc ∷ 0xb4
    ∷ 0x78 ∷ 0x00 ∷ 0x78 ∷ 0xfc ∷ 0xb4 ∷ 0xfc ∷ 0xb4 ∷ 0xcc ∷ 0x78 ∷ 0x00 ∷ 0x00 ∷ 0x28 ∷ 0x7c
    ∷ 0x7c ∷ 0x38 ∷ 0x10 ∷ 0x00 ∷ 0x00 ∷ 0x00 ∷ 0x10 ∷ 0x38 ∷ 0x7c ∷ 0x38 ∷ 0x10 ∷ 0x00 ∷ 0x00
    ∷ 0x00 ∷ 0x38 ∷ 0x38 ∷ 0x6c ∷ 0x6c ∷ 0x10 ∷ 0x38 ∷ 0x00 ∷ 0x00 ∷ 0x10 ∷ 0x38 ∷ 0x7c ∷ 0x7c
    ∷ 0x10 ∷ 0x38 ∷ 0x00 ∷ 0x00 ∷ 0x00 ∷ 0x30 ∷ 0x78 ∷ 0x30 ∷ 0x00 ∷ 0x00 ∷ 0x00 ∷ 0xfc ∷ 0xfc
    ∷ 0xcc ∷ 0x84 ∷ 0xcc ∷ 0xfc ∷ 0xfc ∷ 0xfc ∷ 0x00 ∷ 0x30 ∷ 0x48 ∷ 0x84 ∷ 0x48 ∷ 0x30 ∷ 0x00
    ∷ 0x00 ∷ 0xfc ∷ 0xcc ∷ 0xb4 ∷ 0x78 ∷ 0xb4 ∷ 0xcc ∷ 0xfc ∷ 0xfc ∷ 0x3c ∷ 0x14 ∷ 0x20 ∷ 0x78
    ∷ 0x44 ∷ 0x44 ∷ 0x38 ∷ 0x00 ∷ 0x38 ∷ 0x44 ∷ 0x44 ∷ 0x38 ∷ 0x10 ∷ 0x38 ∷ 0x10 ∷ 0x00 ∷ 0x18
    ∷ 0x14 ∷ 0x14 ∷ 0x10 ∷ 0x10 ∷ 0x70 ∷ 0x60 ∷ 0x00 ∷ 0x3c ∷ 0x24 ∷ 0x3c ∷ 0x24 ∷ 0x24 ∷ 0x6c
    ∷ 0x6c ∷ 0x00 ∷ []

-- Characters 15 to 29.
unfoldable pub glyphs_15 : List ℕ
glyphs_15 =
    0x10 ∷ 0x54 ∷ 0x38 ∷ 0x6c ∷ 0x38 ∷ 0x54 ∷ 0x10 ∷ 0x00 ∷ 0x40 ∷ 0x60 ∷ 0x70 ∷ 0x78 ∷ 0x70 ∷ 0x60
    ∷ 0x40 ∷ 0x00 ∷ 0x04 ∷ 0x0c ∷ 0x1c ∷ 0x3c ∷ 0x1c ∷ 0x0c ∷ 0x04 ∷ 0x00 ∷ 0x10 ∷ 0x38 ∷ 0x54
    ∷ 0x10 ∷ 0x54 ∷ 0x38 ∷ 0x10 ∷ 0x00 ∷ 0x48 ∷ 0x48 ∷ 0x48 ∷ 0x48 ∷ 0x48 ∷ 0x00 ∷ 0x48 ∷ 0x00
    ∷ 0x3c ∷ 0x54 ∷ 0x54 ∷ 0x3c ∷ 0x14 ∷ 0x14 ∷ 0x14 ∷ 0x00 ∷ 0x38 ∷ 0x44 ∷ 0x30 ∷ 0x28 ∷ 0x14
    ∷ 0x0c ∷ 0x44 ∷ 0x38 ∷ 0x00 ∷ 0x00 ∷ 0x00 ∷ 0x00 ∷ 0xf8 ∷ 0xf8 ∷ 0xf8 ∷ 0x00 ∷ 0x10 ∷ 0x38
    ∷ 0x54 ∷ 0x10 ∷ 0x54 ∷ 0x38 ∷ 0x10 ∷ 0x7c ∷ 0x10 ∷ 0x38 ∷ 0x54 ∷ 0x10 ∷ 0x10 ∷ 0x10 ∷ 0x10
    ∷ 0x00 ∷ 0x10 ∷ 0x10 ∷ 0x10 ∷ 0x10 ∷ 0x54 ∷ 0x38 ∷ 0x10 ∷ 0x00 ∷ 0x00 ∷ 0x10 ∷ 0x08 ∷ 0x7c
    ∷ 0x08 ∷ 0x10 ∷ 0x00 ∷ 0x00 ∷ 0x00 ∷ 0x10 ∷ 0x20 ∷ 0x7c ∷ 0x20 ∷ 0x10 ∷ 0x00 ∷ 0x00 ∷ 0x00
    ∷ 0x00 ∷ 0x00 ∷ 0x40 ∷ 0x40 ∷ 0x40 ∷ 0x78 ∷ 0x00 ∷ 0x00 ∷ 0x48 ∷ 0x84 ∷ 0xfc ∷ 0x84 ∷ 0x48
    ∷ 0x00 ∷ 0x00 ∷ []

-- Characters 30 to 44.
unfoldable pub glyphs_30 : List ℕ
glyphs_30 =
    0x00 ∷ 0x10 ∷ 0x10 ∷ 0x38 ∷ 0x38 ∷ 0x7c ∷ 0x7c ∷ 0x00 ∷ 0x00 ∷ 0x7c ∷ 0x7c ∷ 0x38 ∷ 0x38 ∷ 0x10
    ∷ 0x10 ∷ 0x00 ∷ 0x00 ∷ 0x00 ∷ 0x00 ∷ 0x00 ∷ 0x00 ∷ 0x00 ∷ 0x00 ∷ 0x00 ∷ 0x10 ∷ 0x10 ∷ 0x10
    ∷ 0x10 ∷ 0x10 ∷ 0x00 ∷ 0x10 ∷ 0x00 ∷ 0x28 ∷ 0x28 ∷ 0x00 ∷ 0x00 ∷ 0x00 ∷ 0x00 ∷ 0x00 ∷ 0x00
    ∷ 0x00 ∷ 0x28 ∷ 0x7c ∷ 0x28 ∷ 0x28 ∷ 0x7c ∷ 0x28 ∷ 0x00 ∷ 0x10 ∷ 0x38 ∷ 0x40 ∷ 0x30 ∷ 0x08
    ∷ 0x70 ∷ 0x20 ∷ 0x00 ∷ 0x64 ∷ 0x64 ∷ 0x08 ∷ 0x10 ∷ 0x20 ∷ 0x4c ∷ 0x4c ∷ 0x00 ∷ 0x30 ∷ 0x48
    ∷ 0x50 ∷ 0x20 ∷ 0x54 ∷ 0x48 ∷ 0x34 ∷ 0x00 ∷ 0x10 ∷ 0x10 ∷ 0x00 ∷ 0x00 ∷ 0x00 ∷ 0x00 ∷ 0x00
    ∷ 0x00 ∷ 0x08 ∷ 0x10 ∷ 0x20 ∷ 0x20 ∷ 0x20 ∷ 0x10 ∷ 0x08 ∷ 0x00 ∷ 0x20 ∷ 0x10 ∷ 0x08 ∷ 0x08
    ∷ 0x08 ∷ 0x10 ∷ 0x20 ∷ 0x00 ∷ 0x10 ∷ 0x54 ∷ 0x38 ∷ 0x54 ∷ 0x10 ∷ 0x00 ∷ 0x00 ∷ 0x00 ∷ 0x00
    ∷ 0x10 ∷ 0x10 ∷ 0x7c ∷ 0x10 ∷ 0x10 ∷ 0x00 ∷ 0x00 ∷ 0x00 ∷ 0x00 ∷ 0x00 ∷ 0x00 ∷ 0x00 ∷ 0x30
    ∷ 0x30 ∷ 0x20 ∷ []

-- Characters 45 to 59.
unfoldable pub glyphs_45 : List ℕ
glyphs_45 =
    0x00 ∷ 0x00 ∷ 0x00 ∷ 0x7c ∷ 0x00 ∷ 0x00 ∷ 0x00 ∷ 0x00 ∷ 0x00 ∷ 0x00 ∷ 0x00 ∷ 0x00 ∷ 0x00 ∷ 0x18
    ∷ 0x18 ∷ 0x00 ∷ 0x04 ∷ 0x08 ∷ 0x08 ∷ 0x10 ∷ 0x10 ∷ 0x20 ∷ 0x20 ∷ 0x40 ∷ 0x38 ∷ 0x44 ∷ 0x4c
    ∷ 0x54 ∷ 0x64 ∷ 0x44 ∷ 0x38 ∷ 0x00 ∷ 0x10 ∷ 0x30 ∷ 0x50 ∷ 0x10 ∷ 0x10 ∷ 0x10 ∷ 0x7c ∷ 0x00
    ∷ 0x38 ∷ 0x44 ∷ 0x04 ∷ 0x08 ∷ 0x10 ∷ 0x20 ∷ 0x7c ∷ 0x00 ∷ 0x38 ∷ 0x44 ∷ 0x04 ∷ 0x18 ∷ 0x04
    ∷ 0x44 ∷ 0x38 ∷ 0x00 ∷ 0x08 ∷ 0x18 ∷ 0x28 ∷ 0x48 ∷ 0x7c ∷ 0x08 ∷ 0x08 ∷ 0x00 ∷ 0x7c ∷ 0x40
    ∷ 0x78 ∷ 0x04 ∷ 0x04 ∷ 0x44 ∷ 0x38 ∷ 0x00 ∷ 0x18 ∷ 0x20 ∷ 0x40 ∷ 0x78 ∷ 0x44 ∷ 0x44 ∷ 0x38
    ∷ 0x00 ∷ 0x7c ∷ 0x04 ∷ 0x04 ∷ 0x08 ∷ 0x10 ∷ 0x10 ∷ 0x10 ∷ 0x00 ∷ 0x38 ∷ 0x44 ∷ 0x44 ∷ 0x38
    ∷ 0x44 ∷ 0x44 ∷ 0x38 ∷ 0x00 ∷ 0x38 ∷ 0x44 ∷ 0x44 ∷ 0x3c ∷ 0x04 ∷ 0x08 ∷ 0x30 ∷ 0x00 ∷ 0x00
    ∷ 0x00 ∷ 0x18 ∷ 0x18 ∷ 0x00 ∷ 0x18 ∷ 0x18 ∷ 0x00 ∷ 0x00 ∷ 0x00 ∷ 0x30 ∷ 0x30 ∷ 0x00 ∷ 0x30
    ∷ 0x30 ∷ 0x20 ∷ []

-- Characters 60 to 74.
unfoldable pub glyphs_60 : List ℕ
glyphs_60 =
    0x04 ∷ 0x08 ∷ 0x10 ∷ 0x20 ∷ 0x10 ∷ 0x08 ∷ 0x04 ∷ 0x00 ∷ 0x00 ∷ 0x00 ∷ 0x7c ∷ 0x00 ∷ 0x7c ∷ 0x00
    ∷ 0x00 ∷ 0x00 ∷ 0x20 ∷ 0x10 ∷ 0x08 ∷ 0x04 ∷ 0x08 ∷ 0x10 ∷ 0x20 ∷ 0x00 ∷ 0x38 ∷ 0x44 ∷ 0x04
    ∷ 0x08 ∷ 0x10 ∷ 0x00 ∷ 0x10 ∷ 0x00 ∷ 0x38 ∷ 0x44 ∷ 0x5c ∷ 0x54 ∷ 0x5c ∷ 0x40 ∷ 0x38 ∷ 0x00
    ∷ 0x10 ∷ 0x28 ∷ 0x44 ∷ 0x44 ∷ 0x7c ∷ 0x44 ∷ 0x44 ∷ 0x00 ∷ 0x78 ∷ 0x24 ∷ 0x24 ∷ 0x38 ∷ 0x24
    ∷ 0x24 ∷ 0x78 ∷ 0x00 ∷ 0x38 ∷ 0x44 ∷ 0x40 ∷ 0x40 ∷ 0x40 ∷ 0x44 ∷ 0x38 ∷ 0x00 ∷ 0x78 ∷ 0x24
    ∷ 0x24 ∷ 0x24 ∷ 0x24 ∷ 0x24 ∷ 0x78 ∷ 0x00 ∷ 0x7c ∷ 0x40 ∷ 0x40 ∷ 0x78 ∷ 0x40 ∷ 0x40 ∷ 0x7c
    ∷ 0x00 ∷ 0x7c ∷ 0x40 ∷ 0x40 ∷ 0x78 ∷ 0x40 ∷ 0x40 ∷ 0x40 ∷ 0x00 ∷ 0x38 ∷ 0x44 ∷ 0x40 ∷ 0x5c
    ∷ 0x44 ∷ 0x44 ∷ 0x38 ∷ 0x00 ∷ 0x44 ∷ 0x44 ∷ 0x44 ∷ 0x7c ∷ 0x44 ∷ 0x44 ∷ 0x44 ∷ 0x00 ∷ 0x38
    ∷ 0x10 ∷ 0x10 ∷ 0x10 ∷ 0x10 ∷ 0x10 ∷ 0x38 ∷ 0x00 ∷ 0x1c ∷ 0x08 ∷ 0x08 ∷ 0x08 ∷ 0x48 ∷ 0x48
    ∷ 0x30 ∷ 0x00 ∷ []

-- Characters 75 to 89.
unfoldable pub glyphs_75 : List ℕ
glyphs_75 =
    0x44 ∷ 0x48 ∷ 0x50 ∷ 0x60 ∷ 0x50 ∷ 0x48 ∷ 0x44 ∷ 0x00 ∷ 0x40 ∷ 0x40 ∷ 0x40 ∷ 0x40 ∷ 0x40 ∷ 0x40
    ∷ 0x7c ∷ 0x00 ∷ 0x44 ∷ 0x6c ∷ 0x54 ∷ 0x54 ∷ 0x44 ∷ 0x44 ∷ 0x44 ∷ 0x00 ∷ 0x44 ∷ 0x64 ∷ 0x54
    ∷ 0x4c ∷ 0x44 ∷ 0x44 ∷ 0x44 ∷ 0x00 ∷ 0x38 ∷ 0x44 ∷ 0x44 ∷ 0x44 ∷ 0x44 ∷ 0x44 ∷ 0x38 ∷ 0x00
    ∷ 0x78 ∷ 0x44 ∷ 0x44 ∷ 0x78 ∷ 0x40 ∷ 0x40 ∷ 0x40 ∷ 0x00 ∷ 0x38 ∷ 0x44 ∷ 0x44 ∷ 0x44 ∷ 0x54
    ∷ 0x48 ∷ 0x34 ∷ 0x00 ∷ 0x78 ∷ 0x44 ∷ 0x44 ∷ 0x78 ∷ 0x50 ∷ 0x48 ∷ 0x44 ∷ 0x00 ∷ 0x38 ∷ 0x44
    ∷ 0x40 ∷ 0x38 ∷ 0x04 ∷ 0x44 ∷ 0x38 ∷ 0x00 ∷ 0x7c ∷ 0x10 ∷ 0x10 ∷ 0x10 ∷ 0x10 ∷ 0x10 ∷ 0x10
    ∷ 0x00 ∷ 0x44 ∷ 0x44 ∷ 0x44 ∷ 0x44 ∷ 0x44 ∷ 0x44 ∷ 0x38 ∷ 0x00 ∷ 0x44 ∷ 0x44 ∷ 0x44 ∷ 0x44
    ∷ 0x44 ∷ 0x28 ∷ 0x10 ∷ 0x00 ∷ 0x44 ∷ 0x44 ∷ 0x44 ∷ 0x54 ∷ 0x54 ∷ 0x6c ∷ 0x44 ∷ 0x00 ∷ 0x44
    ∷ 0x44 ∷ 0x28 ∷ 0x10 ∷ 0x28 ∷ 0x44 ∷ 0x44 ∷ 0x00 ∷ 0x44 ∷ 0x44 ∷ 0x44 ∷ 0x28 ∷ 0x10 ∷ 0x10
    ∷ 0x10 ∷ 0x00 ∷ []

-- Characters 90 to 104.
unfoldable pub glyphs_90 : List ℕ
glyphs_90 =
    0x7c ∷ 0x04 ∷ 0x08 ∷ 0x10 ∷ 0x20 ∷ 0x40 ∷ 0x7c ∷ 0x00 ∷ 0x18 ∷ 0x10 ∷ 0x10 ∷ 0x10 ∷ 0x10 ∷ 0x10
    ∷ 0x18 ∷ 0x00 ∷ 0x40 ∷ 0x20 ∷ 0x20 ∷ 0x10 ∷ 0x10 ∷ 0x08 ∷ 0x08 ∷ 0x04 ∷ 0x30 ∷ 0x10 ∷ 0x10
    ∷ 0x10 ∷ 0x10 ∷ 0x10 ∷ 0x30 ∷ 0x00 ∷ 0x10 ∷ 0x28 ∷ 0x44 ∷ 0x00 ∷ 0x00 ∷ 0x00 ∷ 0x00 ∷ 0x00
    ∷ 0x00 ∷ 0x00 ∷ 0x00 ∷ 0x00 ∷ 0x00 ∷ 0x00 ∷ 0x00 ∷ 0x7c ∷ 0x20 ∷ 0x10 ∷ 0x08 ∷ 0x00 ∷ 0x00
    ∷ 0x00 ∷ 0x00 ∷ 0x00 ∷ 0x00 ∷ 0x00 ∷ 0x38 ∷ 0x04 ∷ 0x3c ∷ 0x44 ∷ 0x3c ∷ 0x00 ∷ 0x40 ∷ 0x40
    ∷ 0x58 ∷ 0x64 ∷ 0x44 ∷ 0x64 ∷ 0x58 ∷ 0x00 ∷ 0x00 ∷ 0x00 ∷ 0x38 ∷ 0x44 ∷ 0x40 ∷ 0x44 ∷ 0x38
    ∷ 0x00 ∷ 0x04 ∷ 0x04 ∷ 0x34 ∷ 0x4c ∷ 0x44 ∷ 0x4c ∷ 0x34 ∷ 0x00 ∷ 0x00 ∷ 0x00 ∷ 0x38 ∷ 0x44
    ∷ 0x7c ∷ 0x40 ∷ 0x3c ∷ 0x00 ∷ 0x0c ∷ 0x10 ∷ 0x10 ∷ 0x38 ∷ 0x10 ∷ 0x10 ∷ 0x10 ∷ 0x00 ∷ 0x00
    ∷ 0x34 ∷ 0x4c ∷ 0x44 ∷ 0x4c ∷ 0x34 ∷ 0x04 ∷ 0x38 ∷ 0x40 ∷ 0x40 ∷ 0x78 ∷ 0x44 ∷ 0x44 ∷ 0x44
    ∷ 0x44 ∷ 0x00 ∷ []

-- Characters 105 to 119.
unfoldable pub glyphs_105 : List ℕ
glyphs_105 =
    0x10 ∷ 0x00 ∷ 0x30 ∷ 0x10 ∷ 0x10 ∷ 0x10 ∷ 0x38 ∷ 0x00 ∷ 0x10 ∷ 0x00 ∷ 0x30 ∷ 0x10 ∷ 0x10 ∷ 0x10
    ∷ 0x10 ∷ 0x60 ∷ 0x40 ∷ 0x40 ∷ 0x48 ∷ 0x50 ∷ 0x70 ∷ 0x48 ∷ 0x44 ∷ 0x00 ∷ 0x30 ∷ 0x10 ∷ 0x10
    ∷ 0x10 ∷ 0x10 ∷ 0x10 ∷ 0x38 ∷ 0x00 ∷ 0x00 ∷ 0x00 ∷ 0x68 ∷ 0x54 ∷ 0x54 ∷ 0x54 ∷ 0x54 ∷ 0x00
    ∷ 0x00 ∷ 0x00 ∷ 0x58 ∷ 0x64 ∷ 0x44 ∷ 0x44 ∷ 0x44 ∷ 0x00 ∷ 0x00 ∷ 0x00 ∷ 0x38 ∷ 0x44 ∷ 0x44
    ∷ 0x44 ∷ 0x38 ∷ 0x00 ∷ 0x00 ∷ 0x00 ∷ 0x78 ∷ 0x44 ∷ 0x64 ∷ 0x58 ∷ 0x40 ∷ 0x40 ∷ 0x00 ∷ 0x00
    ∷ 0x3c ∷ 0x44 ∷ 0x4c ∷ 0x34 ∷ 0x04 ∷ 0x04 ∷ 0x00 ∷ 0x00 ∷ 0x58 ∷ 0x64 ∷ 0x40 ∷ 0x40 ∷ 0x40
    ∷ 0x00 ∷ 0x00 ∷ 0x00 ∷ 0x3c ∷ 0x40 ∷ 0x38 ∷ 0x04 ∷ 0x78 ∷ 0x00 ∷ 0x10 ∷ 0x10 ∷ 0x38 ∷ 0x10
    ∷ 0x10 ∷ 0x10 ∷ 0x0c ∷ 0x00 ∷ 0x00 ∷ 0x00 ∷ 0x44 ∷ 0x44 ∷ 0x44 ∷ 0x4c ∷ 0x34 ∷ 0x00 ∷ 0x00
    ∷ 0x00 ∷ 0x44 ∷ 0x44 ∷ 0x44 ∷ 0x28 ∷ 0x10 ∷ 0x00 ∷ 0x00 ∷ 0x00 ∷ 0x54 ∷ 0x54 ∷ 0x54 ∷ 0x54
    ∷ 0x28 ∷ 0x00 ∷ []

-- Characters 120 to 134.
unfoldable pub glyphs_120 : List ℕ
glyphs_120 =
    0x00 ∷ 0x00 ∷ 0x44 ∷ 0x28 ∷ 0x10 ∷ 0x28 ∷ 0x44 ∷ 0x00 ∷ 0x00 ∷ 0x00 ∷ 0x44 ∷ 0x44 ∷ 0x44 ∷ 0x3c
    ∷ 0x04 ∷ 0x38 ∷ 0x00 ∷ 0x00 ∷ 0x7c ∷ 0x08 ∷ 0x10 ∷ 0x20 ∷ 0x7c ∷ 0x00 ∷ 0x08 ∷ 0x10 ∷ 0x10
    ∷ 0x20 ∷ 0x10 ∷ 0x10 ∷ 0x08 ∷ 0x00 ∷ 0x10 ∷ 0x10 ∷ 0x00 ∷ 0x10 ∷ 0x10 ∷ 0x10 ∷ 0x10 ∷ 0x00
    ∷ 0x20 ∷ 0x10 ∷ 0x10 ∷ 0x08 ∷ 0x10 ∷ 0x10 ∷ 0x20 ∷ 0x00 ∷ 0x00 ∷ 0x00 ∷ 0x00 ∷ 0x20 ∷ 0x54
    ∷ 0x08 ∷ 0x00 ∷ 0x00 ∷ 0x00 ∷ 0x00 ∷ 0x10 ∷ 0x28 ∷ 0x44 ∷ 0x44 ∷ 0x7c ∷ 0x00 ∷ 0x00 ∷ 0x38
    ∷ 0x44 ∷ 0x40 ∷ 0x44 ∷ 0x38 ∷ 0x10 ∷ 0x20 ∷ 0x00 ∷ 0x28 ∷ 0x00 ∷ 0x44 ∷ 0x44 ∷ 0x4c ∷ 0x34
    ∷ 0x00 ∷ 0x18 ∷ 0x00 ∷ 0x38 ∷ 0x44 ∷ 0x7c ∷ 0x40 ∷ 0x3c ∷ 0x00 ∷ 0x18 ∷ 0x00 ∷ 0x38 ∷ 0x04
    ∷ 0x3c ∷ 0x44 ∷ 0x3c ∷ 0x00 ∷ 0x28 ∷ 0x00 ∷ 0x38 ∷ 0x04 ∷ 0x3c ∷ 0x44 ∷ 0x3c ∷ 0x00 ∷ 0x18
    ∷ 0x00 ∷ 0x38 ∷ 0x04 ∷ 0x3c ∷ 0x44 ∷ 0x3c ∷ 0x00 ∷ 0x3c ∷ 0x18 ∷ 0x38 ∷ 0x04 ∷ 0x3c ∷ 0x44
    ∷ 0x3c ∷ 0x00 ∷ []
