-- ===== src/Libc/Itoa.antt =====
-- src/kernel/src/libc/stdlib.c: `reverse` and `itoa`. A buffer is the list of its bytes.
pub mod Reverse
pub mod Printed
mod Tests
use mathlib.Core.Option
use amethyst_os_old.Base.{
  ℕ, zero, suc, ◌+◌, ◌-◌, ◌*◌, ◌/◌, ◌%◌, ◌^◌, Bool, true, false, ◌&&◌, Option, none, some, List, [],
  ◌∷◌, ◌++◌, ◌==◌, ltb, leb, if◌then◌else◌, get_or, set, length,
}
use amethyst_os_old.Base.Int.{ℤ, pos, negsuc}

-- The body of the loop of `reverse`.
unfoldable pub swap : ℕ → ℕ → List ℕ → List ℕ
swap start end str = set (set str start (get_or str end 0)) end (get_or str start 0)

-- The rounds of that loop. Each brings `start` and `end` closer, so `len` rounds are enough.
unfoldable pub reverse_loop : ℕ → ℕ → ℕ → List ℕ → List ℕ
reverse_loop zero start end str = str
reverse_loop (suc fuel) start end str =
    let more = reverse_loop fuel (start + 1) (end - 1) (swap start end str) in
    if ltb start end then more else str

unfoldable pub reverse : List ℕ → ℕ → List ℕ
reverse str len = reverse_loop len 0 (len - 1) str

-- `num % base` and `num / base` of C, for `base` > 0: both are rounded towards 0.
abbrev pub negate : ℕ → ℤ
negate zero = pos 0
negate (suc n) = negsuc n

unfoldable pub c_rem : ℤ → ℕ → ℤ
c_rem (pos n) base = pos (n % base)
c_rem (negsuc n) base = negate (suc n % base)

unfoldable pub c_div : ℤ → ℕ → ℤ
c_div (pos n) base = pos (n / base)
c_div (negsuc n) base = negate (suc n / base)

-- The character of a remainder, as a byte. A negative one comes below '0'.
unfoldable pub itoa_char : ℤ → ℕ
itoa_char (pos r) = (if ltb 9 r then r - 10 + b'A' else r + b'0') % 256
itoa_char (negsuc r) = (b'0' + 255 - r % 256) % 256

abbrev pub is_zero : ℤ → Bool
is_zero (pos n) = n == 0
is_zero (negsuc n) = false

-- The rounds of `while (num != 0)`. A number has 32 bits, so 32 rounds are enough from base 2 on;
-- in base 1 the loop does not end, and in base 0 it is undefined: both are `none`.
unfoldable pub itoa_loop : ℕ → ℤ → ℕ → Option (List ℕ)
itoa_loop zero num base = if is_zero num then some [] else none
itoa_loop (suc fuel) num base =
    let more =
      Option.map (λ l. itoa_char (c_rem num base) ∷ l) (itoa_loop fuel (c_div num base) base) in
    if is_zero num then some [] else more

-- What `itoa` prints after its loop: the sign, the end of the string, and then all reversed.
abbrev pub finish : Bool → List ℕ → List ℕ
finish negative chars =
    let l = chars ++ (if negative then b'-' ∷ [] else []) in reverse (l ++ 0 ∷ []) (length l)

-- The bytes that `itoa` writes to `str`, the final zero included. The base is positive. `- num` of
-- the least `int` in base 10 is undefined, and `none`.
unfoldable pub itoa : ℤ → ℕ → Option (List ℕ)
itoa (pos n) base =
    if n == 0
    then some (b'0' ∷ 0 ∷ [])
    else if base == 0
    then none
    else Option.map (finish false) (itoa_loop 32 (pos n) base)
itoa (negsuc n) base =
    if base == 10
    then if ltb n 0x7fff_ffff
      then Option.map (finish true) (itoa_loop 32 (pos (suc n)) base)
      else none
    else if base == 0
    then none
    else Option.map (finish false) (itoa_loop 32 (negsuc n) base)
