-- ===== src/Kernel/Console/Colors.antt =====
-- The colours of the console, which text printed on it leaves alone, and the console at start.
use amethyst_os_old.Kernel.Vga.{Store, vga_width, vga_height}
use amethyst_os_old.Base.{ℕ, ◌≡◌, ◌<◌, ◌≤◌, some, refl, List, [], ◌∷◌, arith}
use amethyst_os_old.Kernel.Font.{Font}
use amethyst_os_old.Kernel.Console.{
  Console, puts, putchar, process_char, draw_char, wrap_line, wrap_column, sign_extend,
  set_fg_color, set_bg_color, set_font, clear, console_start,
}
use amethyst_os_old.Kernel.Console.Cursor.{IsReady}

pub putchar-colors :
    (c : ℕ) (t : Console)
    → ((putchar c t).fg_color ≡ t.fg_color) × ((putchar c t).bg_color ≡ t.bg_color)
unfolding putchar process_char draw_char wrap_line wrap_column
putchar-colors c t = ground arith

pub puts-colors :
    (s : List ℕ) (t : Console)
    → ((puts s t).fg_color ≡ t.fg_color) × ((puts s t).bg_color ≡ t.bg_color)
unfolding puts
puts-colors [] t = (refl, refl)
puts-colors (c ∷ s) t =
    ground (arith, puts-colors s (putchar (sign_extend c) t), putchar-colors (sign_extend c) t)

-- The colours as an exception handler sets them.
abbrev pub recolor : ℕ → ℕ → Console → Console
recolor bg fg t = set_fg_color fg (set_bg_color bg t)

pub recolor_lem :
    (bg fg : ℕ) (t : Console) → recolor bg fg t ≡ record t { bg_color = bg; fg_color = fg }
unfolding set_fg_color set_bg_color
recolor_lem bg fg t = refl

pub recolor-IsReady :
    (f : Font) (bg fg : ℕ) (t : Console) → IsReady f t → IsReady f (recolor bg fg t)
unfolding set_fg_color set_bg_color
recolor-IsReady f bg fg t v = ground arith

-- The console at start, once it is cleared and has a font whose characters fit on the screen.
pub cleared-IsReady :
    (f : Font) (m : Store)
    → 0 < f.width
    → f.width ≤ vga_width
    → 0 < f.height
    → f.height ≤ vga_height
    → IsReady f (set_font (some f) (clear (console_start m)))
unfolding set_font clear console_start
cleared-IsReady f m wide fits high fits' = record {
  chosen = refl;
  wide = wide;
  width_fits = fits;
  high = high;
  height_fits = fits';
  column = omega arith;
  line = omega arith;
}
