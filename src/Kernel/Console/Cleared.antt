-- ===== src/Kernel/Console/Cleared.antt =====
-- The first line that is printed after `clear` and `set_font`.
use amethyst_os_old.Base.{
  ℕ, ◌+◌, ◌-◌, ◌*◌, ◌/◌, ◌%◌, ◌≤◌, ◌<◌, ◌≡◌, inl, refl, ◌∙◌, some, ◌&&◌, List, ◌++◌, arith, leb,
  ltb, if◌then◌else◌, get_or, length, codes, All,
}
use amethyst_os_old.Kernel.Vga.{Store, vga_width, vga_height}
use amethyst_os_old.Kernel.Vga.Pixel.{screen}
use amethyst_os_old.Kernel.Vga.Rect.{draw_rect_outside}
use amethyst_os_old.Kernel.Vga.Glyph.{IsMemory}
use amethyst_os_old.Kernel.Font.{font_6x8}
use amethyst_os_old.Kernel.Console.{
  Console, console_start, clear, set_font, puts, putchar, process_char, wrap_line, wrap_column,
}
use amethyst_os_old.Kernel.Console.Colors.{cleared-IsReady}
use amethyst_os_old.Kernel.Console.Draw.{clear_lem}
use amethyst_os_old.Kernel.Console.Text.{NoZero, puts-append}
use amethyst_os_old.Kernel.Console.Bytes.{IsTyped, clear-IsTyped}
use amethyst_os_old.Kernel.Console.Picture.{picture, IsDrawn, IsStored, IsFitted, HasRoom}
use amethyst_os_old.Kernel.Console.Row.{puts-ShowsRow}

-- The console with its font on the cleared screen.
abbrev pub cleared : ℕ → Store → Console
cleared address m = set_font (some (font_6x8 address)) (clear (console_start m))

corner :
    (s : List ℕ) (px py x y b f old : ℕ)
    → x ≡ 0
    → y ≡ 0
    → b ≡ 0
    → f ≡ 0xf
    → old ≡ 0
    → (if leb (y * 8) py && ltb py (y * 8 + 8) && (leb (x * 6) px && ltb px ((x + length s) * 6))
        then picture (get_or s (px / 6 - x) 0) b f (px % 6) (py - y * 8)
        else old)
      ≡ (if ltb py 8 && ltb px (length s * 6)
          then picture (get_or s (px / 6) 0) 0 0xf (px % 6) py
          else 0)
corner s px py x y b f old x0 y0 b0 f0 old0 =
    let column : px / 6 - 0 ≡ px / 6 = omega arith in
    let line : py - 0 * 8 ≡ py = omega arith in
    rw (x0, y0, b0, f0, old0, column, line) (ground arith)

pub cleared-IsTyped : (address : ℕ) (m : Store) → IsMemory m → IsTyped (cleared address m)
unfolding set_font clear console_start
cleared-IsTyped address m bytes =
    let typed =
      clear-IsTyped (console_start m)
        (record { bytes = bytes; bg = omega arith; fg = omega arith }) in
    record { bytes = typed.bytes; bg = typed.bg; fg = typed.fg }

module _ (address : ℕ) (m : Store) (bytes : IsMemory m) (stored : IsStored address m) where
  cleared-IsFitted : IsFitted address (cleared address m)
  unfolding set_font clear console_start font_6x8
  cleared-IsFitted = record {
    ready =
        cleared-IsReady (font_6x8 address) m (omega arith) (omega arith) (omega arith)
          (omega arith);
    typed = cleared-IsTyped address m bytes;
    stored = record {
      same = λ i lt.
          draw_rect_outside 0 0 vga_width vga_height 0 m (address + i)
            (inl (omega (arith, stored.below)))
          ∙ stored.same i lt;
      below = stored.below;
    };
  }

  cleared_black :
      (px py : ℕ) → px < vga_width → py < vga_height → (screen (cleared address m).memory px py ≡ 0)
  unfolding set_font console_start
  cleared_black px py hx hy = (clear_lem (console_start m) px py hx hy).0

  cleared_start :
      ((cleared address m).cur_x ≡ 0)
      × ((cleared address m).cur_y ≡ 0)
      × ((cleared address m).bg_color ≡ 0)
      × ((cleared address m).fg_color ≡ 0xf)
  unfolding set_font clear console_start
  cleared_start = (refl, refl, refl, refl)

  -- A line feed draws nothing.
  line_feed-memory : (t : Console) → (puts (codes "\n") t).memory ≡ t.memory
  unfolding puts putchar process_char wrap_line wrap_column
  line_feed-memory t = ground arith

  -- What a text of at most 53 characters and a line feed leave on the screen: the text in white on the
  -- first line, and black everywhere else.
  pub first_line :
      (s : List ℕ)
      → All IsDrawn s
      → NoZero s
      → length s ≤ 53
      → (px py : ℕ) → px < vga_width
      → py < vga_height
      → screen (puts (s ++ codes "\n") (cleared address m)).memory px py ≡ (
          if ltb py 8 && ltb px (length s * 6)
          then picture (get_or s (px / 6) 0) 0 0xf (px % 6) py
          else 0)
  first_line s drawn zeros short px py hx hy =
      let t = cleared address m in
      let (x, y, b, f) = cleared_start in
      let room : HasRoom (length s) t = record {
        columns = omega (arith, x);
        lines = omega (arith, y);
      } in
      let shows = (puts-ShowsRow address s t drawn room cleared-IsFitted).0 px py hx hy in
      let black = cleared_black px py hx hy in
      rw (puts-append s (codes "\n") t zeros, line_feed-memory (puts s t))
        (shows ∙ corner s px py t.cur_x t.cur_y t.bg_color t.fg_color _ x y b f black)
