-- ===== src/Installer/Console/Agrees.antt =====
-- The console of the installer against that of the kernel.
use amethyst_os_old.Base.{
  ℕ, ◌≡◌, ◌≢◌, inl, inr, refl, ◌∙◌, false, none, some, Option, List, [], ◌∷◌, arith, ◌==◌, All,
  Bool-cases,
}
use amethyst_os_old.Kernel.Console as KernelConsole
use amethyst_os_old.Kernel.Console.{Console, wrap_column, wrap_line, sign_extend}
use amethyst_os_old.Kernel.Font as KernelFont
use amethyst_os_old.Kernel.Font.{Font}
use amethyst_os_old.Installer.Error.{Error}
use amethyst_os_old.Installer.Console.{
  System, fail, font_get_char, vga_draw_bitmap, draw_char, process_char, putchar, puts,
}

-- The bitmap of a character has an address.
abbrev pub HasBitmap : Font → ℕ → Type 0
HasBitmap f c = KernelFont.font_get_char f c ≢ 0

draw_char-kernel :
    (f : Font) (c : ℕ) (s : System)
    → HasBitmap f c
    → draw_char f c s ≡ record s { text = KernelConsole.draw_char f c s.text }
unfolding draw_char font_get_char vga_draw_bitmap KernelConsole.draw_char
draw_char-kernel f c s given =
    let go : (KernelFont.font_get_char f c == 0) ≡ false = ground arith in rw go refl

process_char-kernel :
    (f : Font) (c : ℕ) (s : System)
    → HasBitmap f c
    → process_char f c s ≡ record s { text = KernelConsole.process_char f c s.text }
unfolding process_char KernelConsole.process_char
process_char-kernel f c s given = elim (Bool-cases (c == b'\n')) [
  | inl line ↦ rw line refl
  | inr other ↦ elim (Bool-cases (c == b'\r')) [
    | inl start ↦ rw (other, start) refl
    | inr plain ↦ rw (other, plain) (draw_char-kernel f c s given)
  ]
]

putchar-kernel :
    (f : Font) (c : ℕ) (s : System)
    → (s.text).font ≡ some f
    → HasBitmap f c
    → putchar c s ≡ record s { text = KernelConsole.putchar c s.text }
unfolding putchar KernelConsole.putchar
putchar-kernel f c s chosen given = with_font (s.text).font chosen
  where
    with_font :
        (o : Option Font)
        → o ≡ some f
        → (elim o [
          | none ↦ fail Error.nofont s
          | some g ↦ process_char g c (record s { text = wrap_line g (wrap_column g s.text) })
        ])
          ≡ record s {
            text = elim o [
              | none ↦ s.text
              | some g ↦ KernelConsole.process_char g c (wrap_line g (wrap_column g s.text))
            ];
          }
    with_font o e =
        rw e
          (process_char-kernel f c (record s { text = wrap_line f (wrap_column f s.text) }) given)

putchar-font : (c : ℕ) (t : Console) → (KernelConsole.putchar c t).font ≡ t.font
unfolding KernelConsole.putchar KernelConsole.process_char KernelConsole.draw_char wrap_line
    wrap_column
putchar-font c t = ground arith

-- With a font whose characters of the text have a bitmap, at an address other than 0, `puts` does to the
-- console what the kernel's does, and leaves the heap and `_err` alone.
pub puts-kernel :
    (f : Font) (l : List ℕ) (s : System)
    → (s.text).font ≡ some f
    → All (λ c. HasBitmap f (sign_extend c)) l
    → puts l s ≡ record s { text = KernelConsole.puts l s.text }
unfolding puts KernelConsole.puts
puts-kernel f [] s chosen given = refl
puts-kernel f (c ∷ l) s chosen given = elim (Bool-cases (c == 0)) [
  | inl e ↦ rw e refl
  | inr e ↦
      let next = putchar-kernel f (sign_extend c) s chosen given.0 in
      rw (e, next)
        (puts-kernel f l (record s { text = KernelConsole.putchar (sign_extend c) s.text })
          (putchar-font (sign_extend c) s.text ∙ chosen) given.1)
]
