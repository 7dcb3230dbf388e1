-- ===== src/Base/Word.antt =====
-- Machine integers as their bit patterns: a w-bit value is a number below 2 ^ w.
use Prim.Native.Nat.{ℕ, ◌+◌, ◌*◌, ◌%◌, ◌^◌}

-- `uint32_t`, `size_t` and pointer addition on i386.
abbrev pub add32 : ℕ → ℕ → ℕ
add32 a b = (a + b) % 2 ^ 32

abbrev pub mul32 : ℕ → ℕ → ℕ
mul32 a b = (a * b) % 2 ^ 32

-- Conversion to `uint16_t` and to `uint8_t`.
abbrev pub to_u16 : ℕ → ℕ
to_u16 a = a % 2 ^ 16

abbrev pub to_u8 : ℕ → ℕ
to_u8 a = a % 2 ^ 8
