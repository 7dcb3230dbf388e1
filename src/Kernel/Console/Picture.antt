-- ===== src/Kernel/Console/Picture.antt =====
-- Characters on the screen against the table of the kernel's font.
use amethyst_os_old.Base.{
  ℕ, ◌+◌, ◌-◌, ◌*◌, ◌/◌, ◌%◌, ◌^◌, ◌≤◌, ◌<◌, ◌≡◌, ◌≢◌, inl, refl, ◌∙◌, Bool, true, false, ◌&&◌,
  arith, ltb, leb, ◌==◌, if◌then◌else◌, add32, get_or,
}
use amethyst_os_old.Kernel.Vga.{Store, vga_address, vga_width, vga_height, byte_count}
use amethyst_os_old.Kernel.Vga.Pixel.{screen, IsOutside}
use amethyst_os_old.Kernel.Vga.Bitmap.{draw_bitmap_outside}
use amethyst_os_old.Kernel.Vga.Glyph.{glyph}
use amethyst_os_old.Kernel.Font.{font_6x8, fontdata_6x8, font_get_char}
use amethyst_os_old.Kernel.Font.Bounds.{font_get_char_exact}
use amethyst_os_old.Kernel.Console.{Console, wrap_column, wrap_line, draw_char, putchar}
use amethyst_os_old.Kernel.Console.Cursor.{IsReady, putchar-IsReady}
use amethyst_os_old.Kernel.Console.Draw.{IsLoaded, place, putchar_printable, putchar-Shows}
use amethyst_os_old.Kernel.Console.Bytes.{IsTyped, putchar-IsTyped}

-- The colour of column `gx` and line `gy` of a character, by the font's table.
unfoldable pub picture : ℕ → ℕ → ℕ → ℕ → ℕ → ℕ
picture c bg fg gx gy =
    if get_or fontdata_6x8 (8 * c + gy) 0 / 2 ^ (7 - gx) % 2 == 1 then fg else bg

-- The table lies in memory at `address`, below the frame buffer.
pub record IsStored (address : ℕ) (m : Store) : Type 0 where
  pub same : (i : ℕ) → i < 2048 → m (address + i) ≡ get_or fontdata_6x8 i 0
  pub below : address + 2048 ≤ vga_address

glyph-picture :
    (address c bg fg gx gy : ℕ) (m : Store)
    → IsStored address m
    → c < 256
    → gx < 6
    → gy < 8
    → glyph m (font_get_char (font_6x8 address) c) 6 bg fg gx gy ≡ picture c bg fg gx gy
unfolding font_6x8 picture
glyph-picture address c bg fg gx gy m s small hx hy =
    let start : font_get_char (font_6x8 address) c ≡ address + 8 * c =
      font_get_char_exact (font_6x8 address) c (omega arith) (omega arith)
        (omega (arith, s.below)) in
    let cell : add32 (address + 8 * c) (gy * byte_count 6 + gx / 8) ≡ address + (8 * c + gy) =
      omega (arith, s.below) in
    let column : gx % 8 ≡ gx = omega arith in
    rw (start, cell, column, s.same (8 * c + gy) (omega arith)) refl

-- A character that is drawn: an ASCII code other than the end of the text, the line feed and the
-- return.
abbrev pub IsDrawn : ℕ → Type 0
IsDrawn c = (c < 128) × (c ≢ 0) × (c ≢ b'\n') × (c ≢ b'\r')

-- The console has the kernel's font, in memory at `address`.
pub record IsFitted (address : ℕ) (t : Console) : Type 0 where
  pub ready : IsReady (font_6x8 address) t
  pub typed : IsTyped t
  pub stored : IsStored address t.memory

-- There is room on the line for `n` more characters.
pub record HasRoom (n : ℕ) (t : Console) : Type 0 where
  pub columns : 6 * (t.cur_x + n) ≤ vga_width
  pub lines : 8 * (t.cur_y + 1) ≤ vga_height

module _ (address : ℕ) where
  loaded : address + 2048 ≤ vga_address → IsLoaded (font_6x8 address)
  unfolding font_6x8
  loaded below = record {
    bytes = refl;
    count = omega arith;
    fits = omega arith;
    apart = inl (omega arith);
  }

  place_stays : (t : Console) → HasRoom 1 t → place (font_6x8 address) t ≡ t
  unfolding font_6x8 wrap_line wrap_column
  place_stays t r = ground (arith, r.columns, r.lines)

  putchar_outside :
      (c : ℕ) (t : Console) (a : ℕ)
      → IsReady (font_6x8 address) t
      → HasRoom 1 t
      → c ≢ b'\n'
      → c ≢ b'\r'
      → IsOutside a
      → (putchar c t).memory a ≡ t.memory a
  unfolding draw_char
  putchar_outside c t a v r line return out =
      rw (putchar_printable (font_6x8 address) c t v.chosen line return, place_stays t r)
        (draw_bitmap_outside _ _ _ _ (font_get_char (font_6x8 address) c) t.bg_color t.fg_color
          t.memory a out)

  pub putchar-IsFitted :
      (c : ℕ) (t : Console)
      → IsDrawn c
      → HasRoom 1 t
      → IsFitted address t
      → IsFitted address (putchar c t)
  putchar-IsFitted c t d r h = record {
    ready = putchar-IsReady (font_6x8 address) c t h.ready;
    typed = putchar-IsTyped c t h.typed;
    stored = record {
      same = λ i lt.
          putchar_outside c t (address + i) h.ready r d.2 d.3 (inl (omega (arith, h.stored.below)))
          ∙ h.stored.same i lt;
      below = h.stored.below;
    };
  }

  -- Where a character is drawn when there is room for it.
  pub putchar_draws :
      (c : ℕ) (t : Console) (px py : ℕ)
      → IsDrawn c
      → HasRoom 1 t
      → IsFitted address t
      → px < vga_width
      → py < vga_height
      → (screen (putchar c t).memory px py ≡ (
          if leb (t.cur_y * 8) py
            && ltb py (t.cur_y * 8 + 8)
            && (leb (t.cur_x * 6) px && ltb px (t.cur_x * 6 + 6))
          then picture c t.bg_color t.fg_color (px - t.cur_x * 6) (py - t.cur_y * 8)
          else screen t.memory px py))
        × ((putchar c t).cur_x ≡ t.cur_x + 1)
        × ((putchar c t).cur_y ≡ t.cur_y)
  unfolding font_6x8
  putchar_draws c t px py d r h hx hy =
      let f = font_6x8 address in
      let (on, shows, x, y) =
        putchar-Shows f c t (loaded h.stored.below) h.typed.bytes h.ready (omega (arith, d.0)) d.2
          d.3 in
      let stays = place_stays t r in
      (
        rw stays at (shows px py hx hy)
            ∙ cell
                (leb (t.cur_y * 8) py
                  && ltb py (t.cur_y * 8 + 8)
                  && (leb (t.cur_x * 6) px && ltb px (t.cur_x * 6 + 6)))
                refl,
        rw stays at x,
        rw stays at y,
      )
    where
      cell :
          (b : Bool)
          → b ≡ (
              leb (t.cur_y * 8) py
              && ltb py (t.cur_y * 8 + 8)
              && (leb (t.cur_x * 6) px && ltb px (t.cur_x * 6 + 6)))
          → (if b
              then glyph t.memory
                  (font_get_char (font_6x8 address) c)
                  6
                  t.bg_color
                  t.fg_color
                  (px - t.cur_x * 6)
                  (py - t.cur_y * 8)
              else screen t.memory px py)
            ≡ (if b
                then picture c t.bg_color t.fg_color (px - t.cur_x * 6) (py - t.cur_y * 8)
                else screen t.memory px py)
      cell false e = refl
      cell true e =
          glyph-picture address c t.bg_color t.fg_color (px - t.cur_x * 6) (py - t.cur_y * 8)
            t.memory h.stored (omega (arith, d.0)) (ground arith) (ground arith)
