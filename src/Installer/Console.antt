-- ===== src/Installer/Console.antt =====
-- src/installer/src/std/stdio.c, with sys/font.c, driver/vga.c and printf.c beside it: the console of the
-- installer. What is the same text as in the kernel is taken from there; here are the functions that
-- test a pointer and set `_err`, and those that call them.
pub mod Agrees
pub mod Row
mod Tests
use amethyst_os_old.Base.{
  ℕ, ◌+◌, ◌*◌, Option, none, some, List, [], ◌∷◌, length, ◌==◌, leb, if◌then◌else◌, to_u16,
}
use amethyst_os_old.Libc.Format.{vsprintf}
use amethyst_os_old.Kernel.Alloc.{Heap}
use amethyst_os_old.Kernel.Console as KernelConsole
use amethyst_os_old.Kernel.Console.{Console, wrap_column, wrap_line, sign_extend}
use amethyst_os_old.Kernel.Font as KernelFont
use amethyst_os_old.Kernel.Font.{Font}
use amethyst_os_old.Kernel.Vga as KernelVga
use amethyst_os_old.Installer.Error.{Error}
use amethyst_os_old.Installer.Machine.{Machine}

-- The variables of the installer: those of the console, which hold the memory, the tables of the heap
-- and `_err`.
pub record System : Type 0 where
  pub text : Console
  pub heap : Heap
  pub err : Error

-- The part of it that the heap, the disk and the file system use.
abbrev pub machine : System → Machine
machine s = record { heap = s.heap; memory = (s.text).memory; err = s.err }

abbrev pub with_machine : Machine → System → System
with_machine m s = record {
  text = record (s.text) { memory = m.memory };
  heap = m.heap;
  err = m.err;
}

abbrev pub fail : Error → System → System
fail e s = record s { err = e }

unfoldable pub set_font : Option Font → System → System
set_font f s = record s { text = KernelConsole.set_font f s.text }

unfoldable pub set_fg_color : ℕ → System → System
set_fg_color c s = record s { text = KernelConsole.set_fg_color c s.text }

unfoldable pub set_bg_color : ℕ → System → System
set_bg_color c s = record s { text = KernelConsole.set_bg_color c s.text }

unfoldable pub clear : System → System
clear s = record s { text = KernelConsole.clear s.text }

-- The address of a bitmap, 0 if there is no font.
unfoldable pub font_get_char : Option Font → ℕ → System → ℕ × System
font_get_char none chr s = (0, fail Error.invarg s)
font_get_char (some f) chr s = (KernelFont.font_get_char f chr, s)

unfoldable pub vga_draw_bitmap : ℕ → ℕ → ℕ → ℕ → ℕ → ℕ → ℕ → System → System
vga_draw_bitmap x y w h bitmap bg fg s =
    if bitmap == 0
    then fail Error.invarg s
    else (let m = KernelVga.vga_draw_bitmap x y w h bitmap bg fg (s.text).memory in
        record s { text = record (s.text) { memory = m } })

-- The `default` case of the `switch` of `putchar`.
unfoldable pub draw_char : Font → ℕ → System → System
draw_char f c s =
    let t = s.text in
    let (bitmap, s') = font_get_char (some f) c s in
    let s'' =
      vga_draw_bitmap (to_u16 (t.cur_x * f.width)) (to_u16 (t.cur_y * f.height)) f.width f.height
        bitmap t.bg_color t.fg_color s' in
    record s'' { text = record (s''.text) { cur_x = (s''.text).cur_x + 1 } }

unfoldable pub process_char : Font → ℕ → System → System
process_char f c s =
    let t = s.text in
    if c == b'\n'
    then record s { text = record t { cur_x = 0; cur_y = t.cur_y + 1 } }
    else if c == b'\r'
    then record s { text = record t { cur_x = 0 } }
    else draw_char f c s

unfoldable pub putchar : ℕ → System → System
putchar c s = elim (s.text).font [
  | none ↦ fail Error.nofont s
  | some f ↦ process_char f c (record s { text = wrap_line f (wrap_column f s.text) })
]

unfoldable pub puts : List ℕ → System → System
puts [] s = s
puts (c ∷ l) s = if c == 0 then s else puts l (putchar (sign_extend c) s)

-- The size of `printf_buf`. `none` is for what is undefined, as in the kernel.
abbrev pub printf_size : ℕ
printf_size = 1024

unfoldable pub printf : (ℕ → List ℕ) → List ℕ → List ℕ → System → Option System
printf string_at fmt args s = elim (vsprintf string_at fmt args) [
  | none ↦ none
  | some o ↦ if leb printf_size (length o.text) then none else some (puts o.text s)
]
