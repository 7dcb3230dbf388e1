-- ===== src/Libc/Number/Tests.antt =====
-- Runs of `number`.
use amethyst_os_old.Base.{◌≡◌, refl, true, false, some, codes}
use amethyst_os_old.Base.Int.{pos, negsuc}
use amethyst_os_old.Libc.Number.{
  Flags, number, number_text, layout, sign_part, prefix, tmp_digits, digit_loop, digit,
  reverse_onto, drain,
}

-- The flags of `%-#x`.
abbrev left_hex : Flags
left_hex = record {
  zeropad = true;
  sign = false;
  plus = false;
  space = false;
  left = true;
  small = true;
  special = true;
}

-- The flags of `%06d`.
abbrev zero_decimal : Flags
zero_decimal = record {
  zeropad = true;
  sign = true;
  plus = false;
  space = false;
  left = false;
  small = false;
  special = false;
}

hex_left : number 0xcafe 16 (pos 8) (negsuc 0) left_hex ≡ some (codes "0xcafe  ")
unfolding number number_text layout sign_part prefix tmp_digits digit_loop digit reverse_onto drain
hex_left = refl

negative_padded : number 0xffff_ffd6 10 (pos 6) (negsuc 0) zero_decimal ≡ some (codes "-00042")
unfolding number number_text layout sign_part prefix tmp_digits digit_loop digit reverse_onto drain
negative_padded = refl

-- The least `long` is printed right, though its negation overflows.
least : number 0x8000_0000 10 (pos 1) (negsuc 0) zero_decimal ≡ some (codes "-2147483648")
unfolding number number_text layout sign_part prefix tmp_digits digit_loop digit reverse_onto drain
least = refl
