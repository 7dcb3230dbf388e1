-- ===== src/Libc/Number/Signed.antt =====
-- Signed decimal numbers.
use Prim.Native.Nat.{max}
use mathlib.Core.List.{append-nil}
use amethyst_os_old.Base.{
  ℕ, zero, suc, ◌-◌, ◌/◌, ◌%◌, ◌^◌, ◌≤◌, ◌<◌, ◌≡◌, refl, Bool, true, false, List, [], ◌∷◌, leb,
  if◌then◌else◌, Bool-cases, inl, inr, length, ◌≢◌, ◌==◌, arith, All,
}
use amethyst_os_old.Base.Int.{negsuc}
use amethyst_os_old.Libc.Number.Hex.{digit-ne}
use amethyst_os_old.Libc.Number.{
  Flags, number_text, layout, sign_part, prefix, drain, digit_loop, tmp_digits, reverse_onto,
}
use amethyst_os_old.Libc.Number.Layout.{length-reverse_onto}

-- The flags of `%d`.
abbrev pub signed_flags : Flags
signed_flags = record {
  zeropad = false;
  sign = true;
  plus = false;
  space = false;
  left = false;
  small = false;
  special = false;
}

-- A word as a signed number: the digits of its absolute value, behind its sign.
abbrev pub decimal : ℕ → List ℕ
decimal w =
    if leb 0x8000_0000 w
    then b'-' ∷ reverse_onto (tmp_digits false 10 (2 ^ 32 - w)) []
    else reverse_onto (tmp_digits false 10 w) []

pub number_text_signed :
    (w : ℕ) → w < 2 ^ 32 → number_text w 10 (negsuc 0) (negsuc 0) signed_flags ≡ decimal w
unfolding number_text layout sign_part prefix drain
number_text_signed w lt = elim (Bool-cases (leb 0x8000_0000 w)) [
  | inl e ↦
      let value : (2 ^ 32 - w) % 2 ^ 32 ≡ 2 ^ 32 - w = ground arith in
      let l = tmp_digits false 10 (2 ^ 32 - w) in
      let none_missing : max (length l) 0 - length l ≡ 0 = omega arith in
      rw (e, value, none_missing, append-nil) refl
  | inr e ↦
      let l = tmp_digits false 10 w in
      let none_missing : max (length l) 0 - length l ≡ 0 = omega arith in
      rw (e, none_missing, append-nil) refl
]

digit_loop_short :
    (fuel : ℕ) (small : Bool) (base n : ℕ) → length (digit_loop fuel small base n) ≤ fuel
unfolding digit_loop
digit_loop_short zero small base n = omega arith
digit_loop_short (suc fuel) small base n =
    ground (arith, digit_loop_short fuel small base (n / base))

tmp_digits_short : (small : Bool) (base n : ℕ) → length (tmp_digits small base n) ≤ 32
unfolding tmp_digits
tmp_digits_short small base n = ground (arith, digit_loop_short 32 small base n)

-- At most 32 digits and a sign.
pub decimal_short : (w : ℕ) → length (decimal w) ≤ 33
decimal_short w = ground (
  arith,
  length-reverse_onto (tmp_digits false 10 (2 ^ 32 - w)) [],
  length-reverse_onto (tmp_digits false 10 w) [],
  tmp_digits_short false 10 (2 ^ 32 - w),
  tmp_digits_short false 10 w,
)

-- No zero byte is among the digits.
digit_loop-ne : (fuel n : ℕ) → All (λ c. c ≢ 0) (digit_loop fuel false 10 n)
unfolding digit_loop
digit_loop-ne zero n = tt
digit_loop-ne (suc fuel) n = elim (Bool-cases (n == 0)) [
  | inl e ↦ rw e tt
  | inr e ↦ rw e (digit-ne (n % 10) (omega arith), digit_loop-ne fuel (n / 10))
]

tmp_digits-ne : (n : ℕ) → All (λ c. c ≢ 0) (tmp_digits false 10 n)
unfolding tmp_digits
tmp_digits-ne n = elim (Bool-cases (n == 0)) [
  | inl e ↦ rw e (omega arith)
  | inr e ↦ rw e (digit_loop-ne 32 n)
]

reverse_onto-ne :
    (l out : List ℕ)
    → All (λ c. c ≢ 0) l
    → All (λ c. c ≢ 0) out
    → All (λ c. c ≢ 0) (reverse_onto l out)
unfolding reverse_onto
reverse_onto-ne [] out h k = k
reverse_onto-ne (d ∷ l) out h k = reverse_onto-ne l (d ∷ out) h.1 (h.0, k)

pub decimal-ne : (w : ℕ) → All (λ c. c ≢ 0) (decimal w)
decimal-ne w = elim (Bool-cases (leb 0x8000_0000 w)) [
  | inl e ↦ rw e (omega arith, reverse_onto-ne _ [] (tmp_digits-ne (2 ^ 32 - w)) tt)
  | inr e ↦ rw e (reverse_onto-ne _ [] (tmp_digits-ne w) tt)
]
