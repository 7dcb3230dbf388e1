-- ===== src/Libc/Itoa/Printed.antt =====
-- `itoa` against `printf`.
use Prim.Native.Nat.{max}
use mathlib.Core.List.{append-nil}
use amethyst_os_old.Base.{
  ℕ, zero, suc, ◌-◌, ◌/◌, ◌%◌, ◌^◌, ◌≤◌, ◌<◌, ◌≡◌, ◌≢◌, refl, ap, ◌∙◌, Bool, true, false, some,
  List, [], ◌∷◌, ◌++◌, arith, ◌==◌, ltb, leb, if◌then◌else◌, length, codes, Bool-cases, inl, inr,
}
use amethyst_os_old.Base.Int.{pos, negsuc, signed32}
use amethyst_os_old.Base.Table.{passes, passes_sound}
use amethyst_os_old.Libc.Strings.{isdigit}
use amethyst_os_old.Libc.Number.{
  number, number_text, layout, sign_part, prefix, tmp_digits, digit_loop, digit, reverse_onto,
  drain,
}
use amethyst_os_old.Libc.Number.Digits.{power, halves}
use amethyst_os_old.Libc.Number.Signed.{decimal, number_text_signed}
use amethyst_os_old.Libc.Directive.{
  no_flags, read_flags, read_width, read_precision, read_qualifier, is_flag,
}
use amethyst_os_old.Libc.Format.{
  Output, vsprintf, format_loop, directive, switch, with_arg, convert, integer_case, takes_arg,
  narrow,
}
use amethyst_os_old.Libc.Itoa.{itoa, itoa_loop, itoa_char, c_rem, c_div, finish}
use amethyst_os_old.Libc.Itoa.Reverse.{reverse-append}

char_table : passes (λ r. itoa_char (pos r) == digit false r) 16 ≡ true
unfolding passes itoa_char digit
char_table = refl

itoa_char-digit : (r : ℕ) → r < 16 → itoa_char (pos r) ≡ digit false r
itoa_char-digit r lt =
    ground (arith, passes_sound (λ r. itoa_char (pos r) == digit false r) 16 r lt char_table)

itoa_loop-digit_loop :
    (fuel n base : ℕ)
    → 2 ≤ base
    → base ≤ 16
    → n < power fuel
    → itoa_loop fuel (pos n) base ≡ some (digit_loop fuel false base n)
unfolding itoa_loop digit_loop c_rem c_div
itoa_loop-digit_loop zero n base lo hi lt = ground arith
itoa_loop-digit_loop (suc fuel) n base lo hi lt =
    rw
      (
        itoa_char-digit (n % base) (omega arith),
        itoa_loop-digit_loop fuel (n / base) base lo hi (omega (arith, halves n base lo)),
      )
      (ground arith)

reverse_onto-append :
    (l m out : List ℕ) → reverse_onto (l ++ m) out ≡ reverse_onto m (reverse_onto l out)
unfolding reverse_onto
reverse_onto-append [] m out = refl
reverse_onto-append (x ∷ l) m out = reverse_onto-append l m (x ∷ out)

reverse_onto-end : (l out rest : List ℕ) → reverse_onto l (out ++ rest) ≡ reverse_onto l out ++ rest
unfolding reverse_onto
reverse_onto-end [] out rest = refl
reverse_onto-end (x ∷ l) out rest = reverse_onto-end l (x ∷ out) rest

-- The digits of a number, and the sign.
finish_lem :
    (negative : Bool) (l : List ℕ)
    → finish negative l ≡ (if negative then b'-' ∷ [] else []) ++ (reverse_onto l [] ++ 0 ∷ [])
unfolding reverse_onto
finish_lem true l =
    reverse-append (l ++ b'-' ∷ []) (0 ∷ [])
    ∙ reverse_onto-append l (b'-' ∷ []) (0 ∷ [])
    ∙ ap (λ t. b'-' ∷ t) (reverse_onto-end l [] (0 ∷ []))
finish_lem false l = rw (append-nil l) (reverse-append l (0 ∷ []) ∙ reverse_onto-end l [] (0 ∷ []))

itoa_loop-tmp_digits :
    (n base : ℕ)
    → 2 ≤ base
    → base ≤ 16
    → 0 < n
    → n < 2 ^ 32
    → itoa_loop 32 (pos n) base ≡ some (tmp_digits false base n)
unfolding tmp_digits
itoa_loop-tmp_digits n base lo hi some_left lt =
    itoa_loop-digit_loop 32 n base lo hi (omega arith) ∙ ground arith

-- `itoa` of a number in a base from 2 to 16, on a number that is not negative.
itoa_digits :
    (n base : ℕ)
    → 2 ≤ base
    → base ≤ 16
    → n < 2 ^ 32
    → itoa (pos n) base ≡ some (reverse_onto (tmp_digits false base n) [] ++ 0 ∷ [])
unfolding itoa
itoa_digits n base lo hi lt = elim (Bool-cases (n == 0)) [
  | inl e ↦ rw e (unfold tmp_digits in unfold reverse_onto in rw e refl)
  | inr e ↦
      let divides : (base == 0) ≡ false = ground arith in
      rw (e, divides, itoa_loop-tmp_digits n base lo hi (ground arith) lt)
        (ap some (finish_lem false (tmp_digits false base n)))
]

itoa_negative :
    (n : ℕ)
    → n < 0x7fff_ffff
    → itoa (negsuc n) 10 ≡ some (b'-' ∷ (reverse_onto (tmp_digits false 10 (suc n)) [] ++ 0 ∷ []))
unfolding itoa
itoa_negative n lt =
    let fits : ltb n 0x7fff_ffff ≡ true = ground arith in
    rw
      (
        fits,
        itoa_loop-tmp_digits (suc n) 10 (omega arith) (omega arith) (omega arith) (omega arith),
      )
      (ap some (finish_lem true (tmp_digits false 10 (suc n))))

-- In each base from 2 to 16 `itoa` and `number` print the same digits of an `int` that is not
-- negative; `itoa` ends them with a zero byte.
pub itoa-number :
    (n base : ℕ)
    → 2 ≤ base
    → base ≤ 16
    → n < 2 ^ 31
    → (t : List ℕ) × (number n base (negsuc 0) (negsuc 0) no_flags ≡ some t)
      × (itoa (pos n) base ≡ some (t ++ 0 ∷ []))
unfolding number number_text layout sign_part prefix drain
itoa-number n base lo hi lt =
    let l = tmp_digits false base n in
    let none_missing : max (length l) 0 - length l ≡ 0 = omega arith in
    (
      reverse_onto l [],
      rw (none_missing, append-nil) (ground arith),
      itoa_digits n base lo hi (omega arith),
    )

-- What `%d` prints of a number from its sign on.
vsprintf_signed :
    (string_at : ℕ → List ℕ) (w : ℕ)
    → w < 2 ^ 32
    → vsprintf string_at (codes "%d") (w ∷ [])
      ≡ some (record { text = decimal w; args = []; stores = [] })
unfolding vsprintf format_loop directive switch with_arg convert integer_case takes_arg narrow
    number read_flags read_width read_precision read_qualifier is_flag isdigit
vsprintf_signed string_at w lt = rw (number_text_signed w lt) refl

-- In base 10 `itoa` writes what `sprintf` prints with `%d`, for every `int` but the least, and ends
-- it with a zero byte.
pub itoa-vsprintf :
    (string_at : ℕ → List ℕ) (w : ℕ)
    → w < 2 ^ 32
    → w ≢ 2 ^ 31
    → (o : Output) × (vsprintf string_at (codes "%d") (w ∷ []) ≡ some o)
      × (itoa (signed32 w) 10 ≡ some (o.text ++ 0 ∷ []))
itoa-vsprintf string_at w lt ne = elim (Bool-cases (leb 0x8000_0000 w)) [
  | inl e ↦
      let flip : suc (0xffff_ffff - w) ≡ 2 ^ 32 - w = omega arith in
      (
        _,
        vsprintf_signed string_at w lt,
        rw e (itoa_negative (0xffff_ffff - w) (ground arith) ∙ rw flip refl),
      )
  | inr e ↦
      (_, vsprintf_signed string_at w lt, rw e (itoa_digits w 10 (omega arith) (omega arith) lt))
]
