-- ===== src/Libc/Itoa/Tests.antt =====
-- Runs of `itoa` and `reverse`, and the theorems at concrete numbers.
use amethyst_os_old.Base.{◌≡◌, refl, [], ◌∷◌, ◌++◌, some, none, codes, arith}
use amethyst_os_old.Base.Int.{negsuc, signed32}
use amethyst_os_old.Libc.Format.{Output, vsprintf}
use amethyst_os_old.Libc.Itoa.{
  itoa, itoa_loop, itoa_char, c_rem, c_div, reverse, reverse_loop, swap,
}
use amethyst_os_old.Libc.Itoa.Printed.{itoa-vsprintf}

-- The least `int` has no negation.
least : itoa (negsuc 0x7fff_ffff) 10 ≡ none
unfolding itoa
least = refl

-- A negative number in base 16: the characters of its negative remainders.
negative_hex : itoa (negsuc 0x1f) 16 ≡ some (b'.' ∷ b'0' ∷ 0 ∷ [])
unfolding itoa itoa_loop itoa_char c_rem c_div reverse reverse_loop swap
negative_hex = refl

itoa-vsprintf_example :
    (o : Output) × (vsprintf (λ p. []) (codes "%d") (0xffff_fff0 ∷ []) ≡ some o)
    × (itoa (signed32 0xffff_fff0) 10 ≡ some (o.text ++ 0 ∷ []))
itoa-vsprintf_example = itoa-vsprintf (λ p. []) 0xffff_fff0 (omega arith) (omega arith)
