-- ===== src/Libc/Number.antt =====
-- src/kernel/src/libc/printf.c: `number`, which prints an integer into a field. The text that it
-- writes at `str` is its result; `none` is `NULL`.
pub mod Digits
pub mod Hex
pub mod Layout
pub mod Signed
mod Tests
use Prim.Native.Nat.{bit_or, max}
use amethyst_os_old.Base.{
  ℕ, zero, suc, ◌+◌, ◌-◌, ◌*◌, ◌/◌, ◌%◌, ◌^◌, Bool, true, false, ◌&&◌, ◌||◌, not, Option, none,
  some, List, [], ◌∷◌, ◌++◌, ◌==◌, ltb, leb, if◌then◌else◌, get_or, replicate, length, codes,
}
use amethyst_os_old.Base.Int.{ℤ, pos, negsuc, to_ℕ, take_away}

-- The bits of `type`: ZEROPAD, SIGN, PLUS, SPACE, LEFT, SMALL, SPECIAL.
pub record Flags : Type 0 where
  pub zeropad : Bool
  pub sign : Bool
  pub plus : Bool
  pub space : Bool
  pub left : Bool
  pub small : Bool
  pub special : Bool

-- `digits[d] | locase`
unfoldable pub digit : Bool → ℕ → ℕ
digit small d = bit_or (get_or (codes "0123456789ABCDEF") d 0) (if small then 0x20 else 0)

-- The rounds of `while (num != 0)`, which fill `tmp` from the last digit on. `num` is below 2 ^ 32, so
-- 32 rounds are enough.
unfoldable pub digit_loop : ℕ → Bool → ℕ → ℕ → List ℕ
digit_loop zero small base num = []
digit_loop (suc fuel) small base num =
    let more = digit_loop fuel small base (num / base) in
    if num == 0 then [] else digit small (num % base) ∷ more

-- The contents of `tmp`.
unfoldable pub tmp_digits : Bool → ℕ → ℕ → List ℕ
tmp_digits small base num = if num == 0 then b'0' ∷ [] else digit_loop 32 small base num

-- The sign, the number that is left to print and the size that is left.
unfoldable pub sign_part : Flags → ℕ → ℤ → List ℕ × ℕ × ℤ
sign_part f num size =
    if f.sign
    then if leb 0x8000_0000 num
      then (b'-' ∷ [], (2 ^ 32 - num) % 2 ^ 32, take_away size 1)
      else if f.plus
      then (b'+' ∷ [], num, take_away size 1)
      else if f.space
      then (b' ' ∷ [], num, take_away size 1)
      else ([], num, size)
    else ([], num, size)

-- What SPECIAL writes in front of the digits.
unfoldable pub prefix : Flags → ℕ → List ℕ
prefix f base =
    if f.special
    then if base == 8
      then b'0' ∷ []
      else if base == 16
      then b'0' ∷ bit_or b'X' (if f.small then 0x20 else 0) ∷ []
      else []
    else []

-- `while (size-- > 0) *str++ = c;` writes `to_ℕ size` characters, and leaves this size.
unfoldable pub drain : ℤ → ℤ
drain (pos n) = negsuc 0
drain (negsuc n) = negsuc (suc n)

-- The characters of that loop.
abbrev pub fill : ℤ → ℕ → List ℕ
fill size c = replicate (to_ℕ size) c

unfoldable pub reverse_onto : List ℕ → List ℕ → List ℕ
reverse_onto [] out = out
reverse_onto (d ∷ l) out = reverse_onto l (d ∷ out)

-- The loops that write, from `if (!(type & (ZEROPAD + LEFT)))` on. `i` is the number of digits.
unfoldable pub layout : Flags → Bool → ℕ → List ℕ → List ℕ → List ℕ → ℕ → ℤ → List ℕ
layout f zeropad c sign_chars prefix_chars digits precision size =
    let plain = not (zeropad || f.left) in
    let size₁ = if plain then drain size else size in
    let size₂ = if f.left then size₁ else drain size₁ in
    (if plain then fill size b' ' else [])
    ++ (sign_chars
        ++ (prefix_chars
            ++ ((if f.left then [] else fill size₁ c)
                ++ (replicate (precision - length digits) b'0'
                    ++ (reverse_onto digits [] ++ fill size₂ b' ')))))

-- The text of a number whose base is allowed.
unfoldable pub number_text : ℕ → ℕ → ℤ → ℤ → Flags → List ℕ
number_text num base size precision f =
    let zeropad = f.zeropad && not f.left in
    let (sign_chars, value, size₁) = sign_part f num size in
    let digits = tmp_digits f.small base value in
    let wanted = max (length digits) (to_ℕ precision) in
    layout f zeropad (if zeropad then b'0' else b' ') sign_chars (prefix f base) digits wanted
      (take_away (take_away size₁ (length (prefix f base))) wanted)

-- `precision` and `size` are `int`, and `num` is the 32-bit pattern of a `long`.
unfoldable pub number : ℕ → ℕ → ℤ → ℤ → Flags → Option (List ℕ)
number num base size precision f =
    if ltb base 2 || ltb 16 base then none else some (number_text num base size precision f)
