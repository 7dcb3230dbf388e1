-- ===== src/Libc/Format.antt =====
-- src/kernel/src/libc/printf.c: the conversions of `vsprintf`, what `%n` stores, and the loop over the
-- format. The arguments are 32-bit words; `string_at` is the memory that `%s` reads its string from.
pub mod Fuel
pub mod Plain
mod Tests
use mathlib.Core.Option
use amethyst_os_old.Base.{
  ℕ, zero, suc, ◌+◌, ◌-◌, ◌%◌, ◌^◌, Bool, true, false, ◌&&◌, ◌||◌, Option, none, some, List, [],
  ◌∷◌, ◌++◌, ◌==◌, leb, if◌then◌else◌, replicate, length, to_u8, to_u16,
}
use amethyst_os_old.Base.Int.{ℤ, pos, negsuc, to_ℕ}
use amethyst_os_old.Libc.Strings.{strnlen}
use amethyst_os_old.Libc.Number.{Flags, number}
use amethyst_os_old.Libc.Directive.{
  Directive, no_flags, head_or, tail, read_flags, read_width, read_precision, read_qualifier,
}

-- What the output has come to: the text from `buf` to `str`, the arguments, and what `%n` stored, as
-- pointers and values.
pub record Output : Type 0 where
  pub text : List ℕ
  pub args : List ℕ
  pub stores : List (ℕ × ℕ)

abbrev pub emit : List ℕ → List ℕ → Output → Output
emit l args o = record o { text = o.text ++ l; args = args }

-- `case 'c'`: `--field_width` comes before each test.
unfoldable pub print_char : Directive → ℕ → List ℕ
print_char d c =
    let room = replicate (to_ℕ d.field_width - 1) b' ' in
    if d.flags.left then to_u8 c ∷ room else room ++ to_u8 c ∷ []

-- The first `n` characters of a string.
unfoldable pub copy : ℕ → List ℕ → List ℕ
copy zero s = []
copy (suc n) [] = []
copy (suc n) (c ∷ s) = c ∷ copy n s

-- A precision as the `size_t` that `strnlen` takes.
unfoldable pub as_size : ℤ → ℕ
as_size (pos n) = n % 2 ^ 32
as_size (negsuc n) = 0xffff_ffff - n

-- `case 's'`
unfoldable pub print_string : Directive → List ℕ → List ℕ
print_string d s =
    let len = strnlen s (as_size d.precision) in
    let room = replicate (to_ℕ d.field_width - len) b' ' in
    if d.flags.left then copy len s ++ room else room ++ copy len s

-- `case 'p'`: the width and flags of a pointer.
unfoldable pub pointer_field : Directive → Directive
pointer_field d = elim d.field_width [
  | pos n ↦ d
  | negsuc zero ↦ record d { field_width = pos 8; flags = record (d.flags) { zeropad = true } }
  | negsuc (suc n) ↦ d
]

-- The conversions of integers: base and flags, or `none` for another character.
unfoldable pub integer_case : ℕ → Flags → Option (ℕ × Flags)
integer_case c f =
    if c == b'o'
    then some (8, f)
    else if c == b'x'
    then some (16, record f { small = true })
    else if c == b'X'
    then some (16, f)
    else if c == b'd' || c == b'i'
    then some (10, record f { sign = true })
    else if c == b'u'
    then some (10, f)
    else none

-- The argument as `num`: `%h` narrows it, and extends its sign if it is signed.
unfoldable pub narrow : ℕ → Bool → ℕ → ℕ
narrow qualifier signed w =
    if qualifier == b'h'
    then if signed && leb 0x8000 (to_u16 w) then 0xffff_0000 + to_u16 w else to_u16 w
    else w

-- A conversion that takes one argument.
unfoldable pub convert : (ℕ → List ℕ) → Directive → ℕ → ℕ → List ℕ → Output → Option Output
convert string_at d c w args o =
    if c == b'c'
    then some (emit (print_char d w) args o)
    else if c == b's'
    then some (emit (print_string d (string_at w)) args o)
    else if c == b'p'
    then (let p = pointer_field d in
        Option.map (λ l. emit l args o) (number w 16 p.field_width p.precision p.flags))
    else if c == b'n'
    then some (record o { args = args; stores = (w, length o.text) ∷ o.stores })
    else elim (integer_case c d.flags) [
      | none ↦ none
      | some (base, f) ↦
          Option.map (λ l. emit l args o)
            (number (narrow d.qualifier f.sign w) base d.field_width d.precision f)
    ]

-- The characters that the `switch` has a case with an argument for.
unfoldable pub takes_arg : ℕ → Bool
takes_arg c =
    c == b'c'
    || c == b's'
    || c == b'p'
    || c == b'n'
    || c == b'o'
    || c == b'x'
    || c == b'X'
    || c == b'd'
    || c == b'i'
    || c == b'u'

-- A conversion of the next argument, if there is one.
unfoldable pub with_arg : (ℕ → List ℕ) → Directive → ℕ → List ℕ → Output → Option (Output × List ℕ)
with_arg string_at d c [] o = none
with_arg string_at d c (w ∷ args) o =
    Option.map (λ o'. (o', tail d.fmt)) (convert string_at d c w args o)

-- The `switch` on the conversion character; at the end of the format that is 0.
unfoldable pub switch : (ℕ → List ℕ) → Directive → Output → Option (Output × List ℕ)
switch string_at d o =
    let c = head_or d.fmt in
    if takes_arg c
    then with_arg string_at d c d.args o
    else if c == b'%'
    then some (emit (b'%' ∷ []) d.args o, tail d.fmt)
    else if c == 0
    then some (emit (b'%' ∷ []) d.args o, [])
    else some (emit (b'%' ∷ c ∷ []) d.args o, tail d.fmt)

-- The variables at the start of a directive, behind its flags.
abbrev pub fresh : Flags → List ℕ → List ℕ → Directive
fresh f s args = record {
  flags = f;
  field_width = negsuc 0;
  precision = negsuc 0;
  qualifier = 0;
  fmt = s;
  args = args;
}

-- What follows a `%`: the output, and the format behind the directive.
unfoldable pub directive : (ℕ → List ℕ) → List ℕ → Output → Option (Output × List ℕ)
directive string_at fmt o =
    let (f, s) = read_flags fmt no_flags in
    elim (read_width (fresh f s o.args)) [
      | none ↦ none
      | some d ↦ elim (read_precision d) [
        | none ↦ none
        | some d' ↦ switch string_at (read_qualifier d') o
      ]
    ]

-- The loop over the format. Each round takes a character at least, so the length of the format is
-- fuel enough; `none` is for an undefined read, or for too little fuel.
unfoldable pub format_loop : ℕ → (ℕ → List ℕ) → List ℕ → Output → Option Output
format_loop fuel string_at [] o = some o
format_loop zero string_at (c ∷ s) o = none
format_loop (suc fuel) string_at (c ∷ s) o = elim (c == 0) [
  | true ↦ some o
  | false ↦ elim (c == b'%') [
    | false ↦ format_loop fuel string_at s (emit (c ∷ []) o.args o)
    | true ↦ elim (directive string_at s o) [
      | none ↦ none
      | some (o', s') ↦ format_loop fuel string_at s' o'
    ]
  ]
]

-- The text in `buf`, less its final zero; the result of the C function is its length.
unfoldable pub vsprintf : (ℕ → List ℕ) → List ℕ → List ℕ → Option Output
vsprintf string_at fmt args =
    format_loop (length fmt) string_at fmt (record { text = []; args = args; stores = [] })

-- `sprintf` passes its arguments on.
abbrev pub sprintf : (ℕ → List ℕ) → List ℕ → List ℕ → Option Output
sprintf = vsprintf
