-- ===== src/Libc/Number/Digits.antt =====
-- The digits that `number` prints spell the number.
use amethyst_os_old.Base.{
  ℕ, zero, suc, ◌+◌, ◌-◌, ◌*◌, ◌/◌, ◌%◌, ◌^◌, ◌≤◌, ◌<◌, ◌≡◌, refl, ap, Bool-cases, inl, inr, ◌&&◌,
  Bool, true, false, List, [], ◌∷◌, arith, ◌==◌, leb, if◌then◌else◌,
}
use amethyst_os_old.Base.Table.{passes, passes_sound}
use amethyst_os_old.Libc.Number.{digit, digit_loop, tmp_digits}

-- The value of a digit, in either case.
abbrev pub digit_value : ℕ → ℕ
digit_value c = if leb c b'9' then c - b'0' else if leb c b'F' then c - b'A' + 10 else c - b'a' + 10

-- The number that the digits of `tmp` spell, last digit first.
abbrev pub spelled : ℕ → List ℕ → ℕ
spelled base [] = 0
spelled base (c ∷ l) = digit_value c + base * spelled base l

digit_table :
    passes (λ d. digit_value (digit false d) == d && digit_value (digit true d) == d) 16 ≡ true
unfolding passes digit
digit_table = refl

digit_value-digit : (small : Bool) (d : ℕ) → d < 16 → digit_value (digit small d) ≡ d
digit_value-digit false d lt = ground (
  arith,
  passes_sound (λ d. digit_value (digit false d) == d && digit_value (digit true d) == d) 16 d lt
      digit_table,
)
digit_value-digit true d lt = ground (
  arith,
  passes_sound (λ d. digit_value (digit false d) == d && digit_value (digit true d) == d) 16 d lt
      digit_table,
)

-- 2 ^ n
abbrev pub power : ℕ → ℕ
power zero = 1
power (suc n) = 2 * power n

pub halves : (n base : ℕ) → 2 ≤ base → n / base * 2 ≤ n
halves n base h = grind arith

-- With the fuel that `number` gives, the loop prints all digits.
spelled-digit_loop :
    (fuel : ℕ) (small : Bool) (base n : ℕ)
    → 2 ≤ base
    → base ≤ 16
    → n < power fuel
    → spelled base (digit_loop fuel small base n) ≡ n
unfolding digit_loop
spelled-digit_loop zero small base n lo hi lt = omega arith
spelled-digit_loop (suc fuel) small base n lo hi lt = elim (Bool-cases (n == 0)) [
  | inl e ↦ rw e (ground arith)
  | inr e ↦ rw e (
      omega (
        arith,
        spelled-digit_loop fuel small base (n / base) lo hi (omega (arith, halves n base lo)),
        digit_value-digit small (n % base) (omega arith),
        ap (λ t. base * t)
            (spelled-digit_loop fuel small base (n / base) lo hi (omega (arith, halves n base lo))),
      ))
]

-- The digits of a 32-bit number spell it in its base, in either case.
pub spelled-tmp_digits :
    (small : Bool) (base n : ℕ)
    → 2 ≤ base
    → base ≤ 16
    → n < 2 ^ 32
    → spelled base (tmp_digits small base n) ≡ n
unfolding tmp_digits
spelled-tmp_digits small base n lo hi lt =
    ground (arith, spelled-digit_loop 32 small base n lo hi lt)
