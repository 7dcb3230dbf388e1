-- ===== src/Libc/Directive.antt =====
-- src/kernel/src/libc/printf.c: how `vsprintf` reads a directive: the flags, the field's width, the
-- precision and the qualifier. A read of an argument that is not there is undefined in C and gives
-- `none`.
use amethyst_os_old.Base.{
  ℕ, suc, ◌+◌, ◌-◌, ◌*◌, Bool, true, false, ◌||◌, Option, none, some, List, [], ◌∷◌, ◌==◌,
  if◌then◌else◌,
}
use amethyst_os_old.Base.Int.{ℤ, pos, negsuc, signed32}
use amethyst_os_old.Libc.Strings.{isdigit}
use amethyst_os_old.Libc.Number.{Flags}

-- The digits are read with no bound: a number that overflows `int` is undefined in C.
unfoldable pub skip_atoi : List ℕ → ℕ → ℕ × List ℕ
skip_atoi [] i = (i, [])
skip_atoi (c ∷ s) i = if isdigit c then skip_atoi s (i * 10 + (c - b'0')) else (i, c ∷ s)

abbrev pub no_flags : Flags
no_flags = record {
  zeropad = false;
  sign = false;
  plus = false;
  space = false;
  left = false;
  small = false;
  special = false;
}

-- The `switch` on a flag character.
unfoldable pub is_flag : ℕ → Bool
is_flag c = c == b'-' || c == b'+' || c == b' ' || c == b'#' || c == b'0'

unfoldable pub add_flag : ℕ → Flags → Flags
add_flag c f =
    if c == b'-'
    then record f { left = true }
    else if c == b'+'
    then record f { plus = true }
    else if c == b' '
    then record f { space = true }
    else if c == b'#'
    then record f { special = true }
    else record f { zeropad = true }

-- The loop `repeat`.
unfoldable pub read_flags : List ℕ → Flags → Flags × List ℕ
read_flags [] f = (f, [])
read_flags (c ∷ s) f = if is_flag c then read_flags s (add_flag c f) else (f, c ∷ s)

-- What the directive has read so far, with the format and the arguments that are left.
pub record Directive : Type 0 where
  pub flags : Flags
  pub field_width : ℤ
  pub precision : ℤ
  pub qualifier : ℕ
  pub fmt : List ℕ
  pub args : List ℕ

abbrev pub head_or : List ℕ → ℕ
head_or [] = 0
head_or (c ∷ s) = c

abbrev pub tail : List ℕ → List ℕ
tail [] = []
tail (c ∷ s) = s

-- A width of `*`: a negative one means LEFT. The least `int`, whose negation is undefined in C, gives
-- 2 ^ 31.
unfoldable pub star_width : ℕ → Directive → Directive
star_width w d = elim (signed32 w) [
  | pos n ↦ record d { field_width = pos n }
  | negsuc n ↦ record d { flags = record (d.flags) { left = true }; field_width = pos (suc n) }
]

unfoldable pub read_width : Directive → Option Directive
read_width d =
    if isdigit (head_or d.fmt)
    then (let (n, s) = skip_atoi d.fmt 0 in some (record d { field_width = pos n; fmt = s }))
    else if head_or d.fmt == b'*'
    then elim d.args [
      | [] ↦ none
      | w ∷ args ↦ some (star_width w (record d { fmt = tail d.fmt; args = args }))
    ]
    else some d

-- `if (precision < 0) precision = 0;`
unfoldable pub clip : ℤ → ℤ
clip (pos n) = pos n
clip (negsuc n) = pos 0

-- The part behind a `.`
unfoldable pub read_digits : Directive → Option Directive
read_digits d =
    if isdigit (head_or d.fmt)
    then (let (n, s) = skip_atoi d.fmt 0 in some (record d { precision = pos n; fmt = s }))
    else if head_or d.fmt == b'*'
    then elim d.args [
      | [] ↦ none
      | w ∷ args ↦ some (record d { precision = clip (signed32 w); fmt = tail d.fmt; args = args })
    ]
    else some (record d { precision = pos 0 })

unfoldable pub read_precision : Directive → Option Directive
read_precision d =
    if head_or d.fmt == b'.' then read_digits (record d { fmt = tail d.fmt }) else some d

unfoldable pub read_qualifier : Directive → Directive
read_qualifier d =
    let c = head_or d.fmt in
    if c == b'h' || c == b'l' || c == b'L' then record d { qualifier = c; fmt = tail d.fmt } else d
