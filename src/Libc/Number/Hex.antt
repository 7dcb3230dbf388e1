-- ===== src/Libc/Number/Hex.antt =====
-- Numbers in hexadecimal that are padded with zeros.
use Prim.Native.Nat.{max}
use mathlib.Core.List.{append-nil, append_assoc}
use amethyst_os_old.Base.{
  ℕ, zero, suc, ◌-◌, ◌*◌, ◌/◌, ◌%◌, ◌≤◌, ◌<◌, ◌≡◌, ◌≢◌, refl, sym, ap, ◌∙◌, true, false, List, [],
  ◌∷◌, ◌++◌, arith, ◌==◌, Bool-cases, inl, inr, length, replicate, not, All, All-append,
}
use amethyst_os_old.Base.Table.{passes, passes_sound}
use amethyst_os_old.Base.Int.{pos, negsuc, take_away}
use amethyst_os_old.Libc.Number.{
  Flags, number_text, layout, sign_part, prefix, drain, digit, digit_loop, tmp_digits, reverse_onto,
}

-- The last `k` hexadecimal digits of a number.
abbrev pub hex : ℕ → ℕ → List ℕ
hex zero n = []
hex (suc k) n = hex k (n / 16) ++ digit false (n % 16) ∷ []

-- 16 ^ k
abbrev pub hex_power : ℕ → ℕ
hex_power zero = 1
hex_power (suc k) = 16 * hex_power k

-- The flags of `%0X`.
abbrev pub zero_flags : Flags
zero_flags = record {
  zeropad = true;
  sign = false;
  plus = false;
  space = false;
  left = false;
  small = false;
  special = false;
}

reverse_onto-append : (l out : List ℕ) → reverse_onto l out ≡ reverse_onto l [] ++ out
unfolding reverse_onto
reverse_onto-append [] out = refl
reverse_onto-append (d ∷ l) out =
    rw (reverse_onto-append l (d ∷ out), reverse_onto-append l (d ∷ []))
      (sym (append_assoc (reverse_onto l []) (d ∷ []) out))

replicate_snoc : (k c : ℕ) → replicate k c ++ c ∷ [] ≡ replicate (suc k) c
replicate_snoc zero c = refl
replicate_snoc (suc k) c = ap (λ l. c ∷ l) (replicate_snoc k c)

hex-zero : (k : ℕ) → hex k 0 ≡ replicate k b'0'
unfolding digit
hex-zero zero = refl
hex-zero (suc k) = rw (hex-zero k) (replicate_snoc k b'0')

-- The zeros and the digits of `tmp` make the digits that were asked for.
abbrev Pads : ℕ → ℕ → List ℕ → Type 0
Pads k n digits =
    (length digits ≤ k) × (replicate (k - length digits) b'0' ++ reverse_onto digits [] ≡ hex k n)

Pads-none : (k : ℕ) → Pads k 0 []
unfolding reverse_onto
Pads-none k =
    let all : k - 0 ≡ k = omega arith in
    (omega arith, rw all (append-nil (replicate k b'0') ∙ sym (hex-zero k)))

Pads-more :
    (k n : ℕ) (more : List ℕ) → Pads k (n / 16) more → Pads (suc k) n (digit false (n % 16) ∷ more)
unfolding reverse_onto
Pads-more k n more (short, same) =
    let last = digit false (n % 16) ∷ [] in
    let room : suc k - suc (length more) ≡ k - length more = omega arith in
    (
      omega arith,
      rw (room, reverse_onto-append more last)
          (sym (append_assoc (replicate (k - length more) b'0') (reverse_onto more []) last)
            ∙ ap (λ l. l ++ last) same),
    )

digit_loop-Pads :
    (fuel k n : ℕ) → k ≤ fuel → n < hex_power k → Pads k n (digit_loop fuel false 16 n)
unfolding digit_loop
digit_loop-Pads zero k n le lt =
    let none_left : k ≡ 0 = omega arith in
    let small : n ≡ 0 = (let l : n < hex_power 0 = rw none_left at lt in omega arith) in
    rw small (Pads-none k)
digit_loop-Pads (suc fuel) zero n le lt = let small : n ≡ 0 = omega arith in rw small (Pads-none 0)
digit_loop-Pads (suc fuel) (suc k) n le lt = elim (Bool-cases (n == 0)) [
  | inl e ↦ let small : n ≡ 0 = ground arith in rw (e, small) (Pads-none (suc k))
  | inr e ↦ rw e (
      Pads-more k n (digit_loop fuel false 16 (n / 16))
        (digit_loop-Pads fuel k (n / 16) (omega arith) (omega arith)))
]

tmp_digits-Pads : (k n : ℕ) → 0 < k → k ≤ 32 → n < hex_power k → Pads k n (tmp_digits false 16 n)
unfolding tmp_digits digit
tmp_digits-Pads zero n more le lt = absurd (omega arith)
tmp_digits-Pads (suc k) n more le lt = elim (Bool-cases (n == 0)) [
  | inl e ↦ let small : n ≡ 0 = ground arith in rw (e, small) (Pads-more k 0 [] (Pads-none k))
  | inr e ↦ rw e (digit_loop-Pads 32 (suc k) n le lt)
]

-- `%0kX` prints the last `k` hexadecimal digits of a number, if it has no more.
pub number_text-hex :
    (k n : ℕ)
    → 0 < k
    → k ≤ 32
    → n < hex_power k
    → number_text n 16 (pos k) (negsuc 0) zero_flags ≡ hex k n
unfolding number_text layout sign_part prefix drain
number_text-hex k n more le lt =
    let (short, same) = tmp_digits-Pads k n more le lt in
    let all : take_away (pos k) 0 ≡ pos k = ground arith in
    let wanted : max (length (tmp_digits false 16 n)) 0 ≡ length (tmp_digits false 16 n) =
      omega arith in
    let room : take_away (pos k) (length (tmp_digits false 16 n))
        ≡ pos (k - length (tmp_digits false 16 n)) =
      ground arith in
    let none_missing : length (tmp_digits false 16 n) - length (tmp_digits false 16 n) ≡ 0 =
      omega arith in
    rw (wanted, all, room, none_missing)
      (ap (λ l. replicate (k - length (tmp_digits false 16 n)) b'0' ++ l) (append-nil _) ∙ same)

digit_table : passes (λ d. not (digit false d == 0)) 16 ≡ true
unfolding passes digit
digit_table = refl

pub digit-ne : (d : ℕ) → d < 16 → digit false d ≢ 0
digit-ne d lt = ground (arith, passes_sound (λ d. not (digit false d == 0)) 16 d lt digit_table)

-- No zero byte is among the digits.
pub hex-ne : (k n : ℕ) → All (λ c. c ≢ 0) (hex k n)
hex-ne zero n = tt
hex-ne (suc k) n =
    All-append (λ c. c ≢ 0) (hex k (n / 16)) (digit false (n % 16) ∷ []) (hex-ne k (n / 16))
      (digit-ne (n % 16) (omega arith), tt)
