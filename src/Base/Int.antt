-- ===== src/Base/Int.antt =====
-- Integers: `negsuc n` is -(n + 1).
use Prim.Native.Nat.{ℕ, ◌+◌, ◌-◌}
use amethyst_os_old.Base.Tests.{leb, if◌then◌else◌}

pub data ℤ : Type 0 where
  pos : ℕ → ℤ
  negsuc : ℕ → ℤ

-- The number itself if it is positive, else 0.
abbrev pub to_ℕ : ℤ → ℕ
to_ℕ (pos n) = n
to_ℕ (negsuc n) = 0

-- `z - k`
abbrev pub take_away : ℤ → ℕ → ℤ
take_away (pos n) k = if leb k n then pos (n - k) else negsuc (k - n - 1)
take_away (negsuc n) k = negsuc (n + k)

-- An `int` from its 32-bit pattern.
abbrev pub signed32 : ℕ → ℤ
signed32 w = if leb 0x8000_0000 w then negsuc (0xffff_ffff - w) else pos w
