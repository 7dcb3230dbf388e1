-- ===== src/Libc/Format/Tests.antt =====
-- Runs of `vsprintf`, and its theorems at concrete formats.
use amethyst_os_old.Base.{ℕ, ◌≡◌, refl, List, [], ◌∷◌, some, arith, codes}
use amethyst_os_old.Libc.Strings.{isdigit, strnlen}
use amethyst_os_old.Libc.Stdlib.{atoi}
use amethyst_os_old.Libc.Number.{
  number, number_text, layout, sign_part, prefix, tmp_digits, digit_loop, digit, reverse_onto,
  drain,
}
use amethyst_os_old.Libc.Directive.{
  read_flags, read_width, read_precision, read_qualifier, read_digits, is_flag, add_flag, skip_atoi,
}
use amethyst_os_old.Libc.Format.{
  Output, vsprintf, sprintf, format_loop, directive, switch, with_arg, convert, integer_case,
  takes_arg, narrow, print_string, copy, as_size,
}
use amethyst_os_old.Libc.Format.Fuel.{vsprintf_total}
use amethyst_os_old.Libc.Format.Plain.{atoi-vsprintf}

-- A memory with one string at every address.
abbrev name : ℕ → List ℕ
name p = codes "disk"

-- A number that is filled up with zeros, and a string that is cut and filled up with spaces.
device_line :
    sprintf name (codes "Vendor:%04X, %6.3s|") (0x8086 ∷ 0x1000 ∷ [])
    ≡ some (record { text = codes "Vendor:8086,    dis|"; args = []; stores = [] })
unfolding vsprintf format_loop directive switch with_arg convert integer_case takes_arg narrow
    print_string copy as_size number number_text layout sign_part prefix tmp_digits digit_loop digit
    reverse_onto drain read_flags read_width read_precision read_qualifier read_digits is_flag
    add_flag skip_atoi isdigit strnlen
device_line = refl

vsprintf_total_example : (o : Output) × (vsprintf name (codes "id %*x.") (8 ∷ 0xcafe ∷ []) ≡ some o)
vsprintf_total_example = vsprintf_total name (codes "id %*x.") (8 ∷ 0xcafe ∷ []) (omega arith)

atoi-vsprintf_example :
    (o : Output) × (vsprintf name (codes "%u") (1234 ∷ []) ≡ some o)
    × (atoi o.text ≡ 1234)
    × (o.args ≡ [])
    × (o.stores ≡ [])
atoi-vsprintf_example = atoi-vsprintf name 1234 (omega arith)
