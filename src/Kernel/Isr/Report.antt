-- ===== src/Kernel/Isr/Report.antt =====
-- What an exception handler puts on the screen, and how it ends.
use amethyst_os_old.Base.{
  ℕ, ◌+◌, ◌*◌, ◌<◌, ◌≤◌, ◌≡◌, refl, ap, ◌∙◌, some, List, [], ◌∷◌, arith, length, All, ltb, false,
}
use amethyst_os_old.Libc.Format.{Output, vsprintf}
use amethyst_os_old.Libc.Format.Plain.{IsPlain, vsprintf_plain}
use amethyst_os_old.Kernel.Vga.{vga_width, vga_height}
use amethyst_os_old.Kernel.Console.{Console, puts, putchar, process_char, wrap_line, wrap_column}
use amethyst_os_old.Kernel.Console.Colors.{recolor, recolor_lem}
use amethyst_os_old.Kernel.Console.Picture.{IsFitted, HasRoom}
use amethyst_os_old.Kernel.Console.Row.{ShowsRow, puts-ShowsRow}
use amethyst_os_old.Kernel.Font.{font_6x8}
use amethyst_os_old.Kernel.Idt.{Isr}
use amethyst_os_old.Kernel.Isr.{Exit, halt, return_interrupt, buffer_size, printf, report, handle}
use amethyst_os_old.Kernel.Isr.Message.{message, ending, severity, message-IsShort, handle_lem}

-- A text that fits the buffer is printed as `vsprintf` made it.
pub printf_text :
    (string_at : ℕ → List ℕ) (fmt args : List ℕ) (o : Output) (s : List ℕ) (t : Console)
    → vsprintf string_at fmt args ≡ some o
    → o.text ≡ s
    → length s < buffer_size
    → printf string_at fmt args t ≡ some (puts s t)
unfolding printf
printf_text string_at fmt args o s t e same short = rw (e, printf, same) (ground arith)

-- A text without directives that fits the buffer is printed as it stands.
pub printf_plain :
    (string_at : ℕ → List ℕ) (s args : List ℕ) (t : Console)
    → All IsPlain s
    → length s < buffer_size
    → printf string_at s args t ≡ some (puts s t)
printf_plain string_at s args t p short =
    printf_text string_at s args (record { text = s; args = args; stores = [] }) s t
      (vsprintf_plain string_at s args p) refl short

-- The console when a handler has printed.
abbrev pub reported : Isr → Console → Console
reported isr t = puts (b'\n' ∷ message isr) (recolor 0 (severity (ending isr)) t)

-- Every handler prints its text behind a line feed, and ends as the text says.
pub handle_runs :
    (string_at : ℕ → List ℕ) (isr : Isr) (t : Console)
    → handle string_at isr t ≡ some (reported isr t, ending isr)
unfolding report
handle_runs string_at isr t =
    let short = message-IsShort isr in
    let text = b'\n' ∷ message isr in
    let c = recolor 0 (severity (ending isr)) t in
    let run : printf string_at text [] c ≡ some (puts text c) =
      printf_plain string_at text [] c (omega arith, short.plain) (omega (arith, short.narrow)) in
    handle_lem string_at isr t ∙ rw (run, report) refl

-- The start of the line below, in the colours of the report.
abbrev pub below : Isr → Console → Console
below isr t = record t {
  cur_x = 0;
  cur_y = t.cur_y + 1;
  bg_color = 0;
  fg_color = severity (ending isr);
}

severity_small : (exit : Exit) → severity exit < 256
severity_small halt = omega arith
severity_small return_interrupt = omega arith

module _ (address : ℕ) (isr : Isr) (t : Console) (h : IsFitted address t)
    (column : 6 * (t.cur_x + 1) ≤ vga_width) (line : 8 * (t.cur_y + 2) ≤ vga_height) where
  line_feed : putchar b'\n' (recolor 0 (severity (ending isr)) t) ≡ below isr t
  unfolding putchar process_char wrap_line wrap_column font_6x8
  line_feed =
      let chosen = h.ready.chosen in
      let wide : ltb vga_width ((t.cur_x + 1) * 6) ≡ false = ground arith in
      let high : ltb vga_height ((t.cur_y + 1) * 8) ≡ false = ground arith in
      rw (recolor_lem 0 (severity (ending isr)) t, chosen, wide, high)
        (ap (λ o. record (below isr t) { font = o }) chosen)

  below-IsFitted : IsFitted address (below isr t)
  unfolding font_6x8
  below-IsFitted = record {
    ready = record {
      chosen = h.ready.chosen;
      wide = omega arith;
      width_fits = omega arith;
      high = omega arith;
      height_fits = omega arith;
      column = omega arith;
      line = omega (arith, line);
    };
    typed = record { bytes = h.typed.bytes; bg = omega arith; fg = severity_small (ending isr) };
    stored = h.stored;
  }

  -- If the console has the kernel's font and there is room for a character on the cursor's line and
  -- for a line below it, then every exception handler draws its text on that line below, on black, in
  -- the fatal colour if the last word of the text is "halt" and else in the colour of information, and
  -- changes nothing else on the screen; then it halts the machine if that is the last word, and else
  -- calls `return_interrupt`.
  pub handle-ShowsRow :
      (string_at : ℕ → List ℕ)
      → (t' : Console) × (handle string_at isr t ≡ some (t', ending isr))
        × ShowsRow (message isr) (below isr t) t'
        × IsFitted address t'
  unfolding puts
  handle-ShowsRow string_at =
      let short = message-IsShort isr in
      let room : HasRoom (length (message isr)) (below isr t) = record {
        columns = omega (arith, short.narrow);
        lines = omega (arith, line);
      } in
      let (row, fitted, _, _) =
        puts-ShowsRow address (message isr) (below isr t) short.drawn room below-IsFitted in
      (
        puts (message isr) (below isr t),
        handle_runs string_at isr t ∙ ap (λ c. some (puts (message isr) c, ending isr)) line_feed,
        row,
        fitted,
      )
