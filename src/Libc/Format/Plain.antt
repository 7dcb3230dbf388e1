-- ===== src/Libc/Format/Plain.antt =====
-- Formats without directives, and `%u` against `atoi`.
use amethyst_os_old.Base.{
  ℕ, zero, suc, ◌-◌, ◌%◌, ◌^◌, ◌≤◌, ◌<◌, ◌≡◌, ◌≢◌, refl, sym, ap, ◌∙◌, true, false, ◌&&◌, some,
  List, [], ◌∷◌, arith, leb, length, All, codes,
}
use mathlib.Core.List.{append-nil, append_assoc}
use Prim.Native.Nat.{max, ◌/◌}
use amethyst_os_old.Base.Table.{passes, passes_sound}
use amethyst_os_old.Libc.Strings.{isspace, isdigit}
use amethyst_os_old.Libc.Stdlib.{skip_spaces, atoi_loop, atoi}
use amethyst_os_old.Libc.Number.{
  number, number_text, layout, sign_part, prefix, tmp_digits, digit_loop, digit, reverse_onto,
  drain,
}
use amethyst_os_old.Libc.Number.Digits.{spelled, spelled-tmp_digits}
use amethyst_os_old.Libc.Directive.{read_flags, read_width, read_precision, read_qualifier, is_flag}
use amethyst_os_old.Libc.Format.{
  Output, emit, vsprintf, format_loop, directive, switch, with_arg, convert, integer_case,
  takes_arg, narrow,
}

-- Neither the end of the format nor the start of a directive.
abbrev pub IsPlain : ℕ → Type 0
IsPlain c = (c ≢ 0) × (c ≢ b'%')

format_loop_plain :
    (fuel : ℕ) (string_at : ℕ → List ℕ) (s : List ℕ) (o : Output)
    → All IsPlain s
    → length s ≤ fuel
    → format_loop fuel string_at s o ≡ some (emit s o.args o)
unfolding format_loop
format_loop_plain fuel string_at [] o p le =
    ap some (λ i. record o { text = sym (append-nil o.text) i })
format_loop_plain zero string_at (c ∷ s) o p le = absurd (omega arith)
format_loop_plain (suc fuel) string_at (c ∷ s) o p le = ground (
  arith,
  format_loop_plain fuel string_at s (emit (c ∷ []) o.args o) p.1,
  append_assoc o.text (c ∷ []) s,
)

-- A format without `%` is its own output, and uses no argument.
pub vsprintf_plain :
    (string_at : ℕ → List ℕ) (s args : List ℕ)
    → All IsPlain s
    → vsprintf string_at s args ≡ some (record { text = s; args = args; stores = [] })
unfolding vsprintf
vsprintf_plain string_at s args p =
    format_loop_plain (length s) string_at s (record { text = []; args = args; stores = [] }) p
      (omega arith)

-- `%u` prints the digits of its argument.
vsprintf_unsigned :
    (string_at : ℕ → List ℕ) (n : ℕ)
    → vsprintf string_at (codes "%u") (n ∷ [])
      ≡ some (record { text = reverse_onto (tmp_digits false 10 n) []; args = []; stores = [] })
unfolding vsprintf format_loop directive switch with_arg convert integer_case takes_arg narrow
    number number_text layout sign_part prefix drain read_flags read_width read_precision
    read_qualifier is_flag isdigit
vsprintf_unsigned string_at n =
    let l = tmp_digits false 10 n in
    let none_missing : max (length l) 0 - length l ≡ 0 = omega arith in
    rw (none_missing, append-nil)

-- A decimal digit.
abbrev IsDigit : ℕ → Type 0
IsDigit c = (b'0' ≤ c) × (c ≤ b'9')

digit_table : passes (λ d. leb b'0' (digit false d) && leb (digit false d) b'9') 10 ≡ true
unfolding passes digit
digit_table = refl

digit-IsDigit : (d : ℕ) → d < 10 → IsDigit (digit false d)
digit-IsDigit d lt = ground (
  arith,
  passes_sound (λ d. leb b'0' (digit false d) && leb (digit false d) b'9') 10 d lt digit_table,
)

digit_loop-IsDigit : (fuel n : ℕ) → All IsDigit (digit_loop fuel false 10 n)
unfolding digit_loop
digit_loop-IsDigit zero n = tt
digit_loop-IsDigit (suc fuel) n =
    ground (arith, digit-IsDigit (n % 10), digit_loop-IsDigit fuel (n / 10))

tmp_digits-IsDigit : (n : ℕ) → All IsDigit (tmp_digits false 10 n)
unfolding tmp_digits
tmp_digits-IsDigit n = ground (arith, digit_loop-IsDigit 32 n)

reverse_onto-IsDigit :
    (l out : List ℕ) → All IsDigit l → All IsDigit out → All IsDigit (reverse_onto l out)
unfolding reverse_onto
reverse_onto-IsDigit [] out h k = k
reverse_onto-IsDigit (d ∷ l) out h k = reverse_onto-IsDigit l (d ∷ out) h.1 (h.0, k)

skip_no_spaces : (l : List ℕ) → All IsDigit l → skip_spaces l ≡ l
unfolding skip_spaces isspace
skip_no_spaces [] h = refl
skip_no_spaces (c ∷ l) h = ground arith

-- `atoi` reads the digits of `tmp` in the order in which they are printed.
atoi_loop-reverse_onto :
    (l out : List ℕ)
    → All IsDigit l
    → spelled 10 l < 2 ^ 32
    → atoi_loop (reverse_onto l out) 0 ≡ atoi_loop out (spelled 10 l)
unfolding reverse_onto
atoi_loop-reverse_onto [] out h fits = refl
atoi_loop-reverse_onto (d ∷ l) out h fits =
    atoi_loop-reverse_onto l (d ∷ out) h.1 (omega arith) ∙ (unfold atoi_loop in ground arith)

-- Every number below 2 ^ 31 that `%u` prints is read back by `atoi`; no argument is left, and
-- nothing is stored.
pub atoi-vsprintf :
    (string_at : ℕ → List ℕ) (n : ℕ)
    → n < 2 ^ 31
    → (o : Output) × (vsprintf string_at (codes "%u") (n ∷ []) ≡ some o)
      × (atoi o.text ≡ n)
      × (o.args ≡ [])
      × (o.stores ≡ [])
unfolding atoi
atoi-vsprintf string_at n lt =
    let l = tmp_digits false 10 n in
    let exact = spelled-tmp_digits false 10 n (omega arith) (omega arith) (omega arith) in
    let digits = tmp_digits-IsDigit n in
    (
      record { text = reverse_onto l []; args = []; stores = [] },
      vsprintf_unsigned string_at n,
      rw (skip_no_spaces (reverse_onto l []) (reverse_onto-IsDigit l [] digits tt))
          (atoi_loop-reverse_onto l [] digits (omega (arith, exact)) ∙ exact),
      refl,
      refl,
    )
