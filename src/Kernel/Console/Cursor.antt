-- ===== src/Kernel/Console/Cursor.antt =====
-- The cursor stays on the screen.
use amethyst_os_old.Base.{
  ℕ, ◌+◌, ◌*◌, ◌≤◌, ◌<◌, ◌≡◌, some, List, [], ◌∷◌, arith, ◌==◌, inl, inr, Bool-cases,
}
use amethyst_os_old.Kernel.Vga.{vga_width, vga_height}
use amethyst_os_old.Kernel.Font.{Font}
use amethyst_os_old.Kernel.Console.{
  Console, wrap_column, wrap_line, draw_char, process_char, putchar, puts, sign_extend,
}

-- A font is set whose characters fit on the screen, and the cursor stands on the screen or right
-- behind its last column or line.
pub record IsReady (f : Font) (t : Console) : Type 0 where
  pub chosen : t.font ≡ some f
  pub wide : 0 < f.width
  pub width_fits : f.width ≤ vga_width
  pub high : 0 < f.height
  pub height_fits : f.height ≤ vga_height
  pub column : t.cur_x * f.width ≤ vga_width
  pub line : t.cur_y * f.height ≤ vga_height

-- The cell of the cursor lies on the screen whole.
pub record IsOnScreen (f : Font) (t : Console) : Type 0 where
  pub column : (t.cur_x + 1) * f.width ≤ vga_width
  pub line : (t.cur_y + 1) * f.height ≤ vga_height

-- After both overflow checks of `putchar` the cell of the cursor is on the screen.
pub wrap-IsOnScreen :
    (f : Font) (t : Console) → IsReady f t → IsOnScreen f (wrap_line f (wrap_column f t))
unfolding wrap_line wrap_column
wrap-IsOnScreen f t v = ground arith

-- On a console with a font and its cursor on the screen, `putchar` keeps both so, whatever the
-- character.
pub putchar-IsReady : (f : Font) (c : ℕ) (t : Console) → IsReady f t → IsReady f (putchar c t)
unfolding putchar process_char draw_char wrap_line wrap_column
putchar-IsReady f c t v = ground arith

pub puts-IsReady : (f : Font) (s : List ℕ) (t : Console) → IsReady f t → IsReady f (puts s t)
unfolding puts
puts-IsReady f [] t v = v
puts-IsReady f (c ∷ s) t v = elim (Bool-cases (c == 0)) [
  | inl e ↦ rw e v
  | inr e ↦
      rw e (puts-IsReady f s (putchar (sign_extend c) t) (putchar-IsReady f (sign_extend c) t v))
]
