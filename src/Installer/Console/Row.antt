-- ===== src/Installer/Console/Row.antt =====
-- A text on one line of the installer's screen.
use amethyst_os_old.Base.{
  ℕ, ◌+◌, ◌-◌, ◌*◌, ◌/◌, ◌%◌, ◌^◌, ◌≤◌, ◌<◌, ◌≡◌, refl, ap, ◌∙◌, ◌&&◌, some, List, [], ◌∷◌, arith,
  ◌==◌, ltb, leb, if◌then◌else◌, get_or, length, All,
}
use amethyst_os_old.Kernel.Vga.{vga_address, vga_width, vga_height}
use amethyst_os_old.Kernel.Vga.Pixel.{screen}
use amethyst_os_old.Kernel.Console.{Console, sign_extend}
use amethyst_os_old.Kernel.Console.Bytes.{IsTyped}
use amethyst_os_old.Kernel.Console.Picture.{picture, IsDrawn, IsFitted, HasRoom}
use amethyst_os_old.Kernel.Console.Row.{puts-ShowsRow}
use amethyst_os_old.Kernel.Font as KernelFont
use amethyst_os_old.Kernel.Font.Bounds.{font_get_char_exact}
use amethyst_os_old.Installer.Font.{fontdata_6x8, font_6x8, font-kernel}
use amethyst_os_old.Installer.Console.{System, puts}
use amethyst_os_old.Installer.Console.Agrees.{HasBitmap, puts-kernel}

-- The colour of column `gx` and line `gy` of a character, by the table of the installer's font.
abbrev pub drawing : ℕ → ℕ → ℕ → ℕ → ℕ → ℕ
drawing c bg fg gx gy =
    if get_or fontdata_6x8 (8 * c + gy) 0 / 2 ^ (7 - gx) % 2 == 1 then fg else bg

-- The console has the installer's font, whose table lies in memory at `address`, and its variables have
-- the values of their types.
pub record IsInstalled (address : ℕ) (t : Console) : Type 0 where
  pub chosen : t.font ≡ some (font_6x8 address)
  pub typed : IsTyped t
  pub same : (i : ℕ) → i < 2048 → t.memory (address + i) ≡ get_or fontdata_6x8 i 0
  pub above : 0 < address
  pub below : address + 2048 ≤ vga_address

module _ (address : ℕ) where
  drawing-kernel : (c bg fg gx gy : ℕ) → picture c bg fg gx gy ≡ drawing c bg fg gx gy
  unfolding picture
  drawing-kernel c bg fg gx gy = rw ((font-kernel address).0) refl

  IsFitted-of : (t : Console) (n : ℕ) → IsInstalled address t → HasRoom n t → IsFitted address t
  unfolding KernelFont.font_6x8
  IsFitted-of t n h r = record {
    ready = record {
      chosen = h.chosen ∙ ap some ((font-kernel address).1);
      wide = omega arith;
      width_fits = omega arith;
      high = omega arith;
      height_fits = omega arith;
      column = omega (arith, r.columns);
      line = omega (arith, r.lines);
    };
    typed = h.typed;
    stored = record {
      same = λ i lt. h.same i lt ∙ ap (λ l. get_or l i 0) ((font-kernel address).0);
      below = h.below;
    };
  }

  bitmap-HasBitmap :
      (c : ℕ)
      → 0 < address
      → address + 2048 ≤ vga_address
      → IsDrawn c
      → HasBitmap (font_6x8 address) (sign_extend c)
  unfolding font_6x8
  bitmap-HasBitmap c above below d zero =
      let plain : sign_extend c ≡ c = ground (arith, d.0) in
      let at =
        font_get_char_exact (font_6x8 address) c (omega (arith, d.0)) (omega arith) (omega arith) in
      omega (arith, at, rw plain at zero)

  bitmaps :
      (l : List ℕ)
      → 0 < address
      → address + 2048 ≤ vga_address
      → All IsDrawn l
      → All (λ c. HasBitmap (font_6x8 address) (sign_extend c)) l
  bitmaps [] above below d = tt
  bitmaps (c ∷ l) above below d = (bitmap-HasBitmap c above below d.0, bitmaps l above below d.1)

  -- A text of ASCII characters for which there is room on the line of the cursor is drawn there by the
  -- installer's `puts`, in the bitmaps of its font and in the console's colours: no other pixel of the
  -- screen changes, nor do the heap and the error code.
  pub puts_row :
      (l : List ℕ) (s : System) (px py : ℕ)
      → All IsDrawn l
      → HasRoom (length l) s.text
      → IsInstalled address s.text
      → px < vga_width
      → py < vga_height
      → (screen ((puts l s).text).memory px py ≡ (
          if leb ((s.text).cur_y * 8) py
            && ltb py ((s.text).cur_y * 8 + 8)
            && (leb ((s.text).cur_x * 6) px && ltb px (((s.text).cur_x + length l) * 6))
          then drawing
              (get_or l (px / 6 - (s.text).cur_x) 0)
              (s.text).bg_color
              (s.text).fg_color
              (px % 6)
              (py - (s.text).cur_y * 8)
          else screen (s.text).memory px py))
        × ((puts l s).heap ≡ s.heap)
        × ((puts l s).err ≡ s.err)
  puts_row l s px py d r h hx hy =
      let fitted = IsFitted-of s.text (length l) h r in
      let shows = (puts-ShowsRow address l s.text d r fitted).0 px py hx hy in
      let same = puts-kernel (font_6x8 address) l s h.chosen (bitmaps l h.above h.below d) in
      rw
        (
          same,
          ← drawing-kernel (get_or l (px / 6 - (s.text).cur_x) 0) (s.text).bg_color
              (s.text).fg_color (px % 6) (py - (s.text).cur_y * 8),
        )
        (shows, refl, refl)
