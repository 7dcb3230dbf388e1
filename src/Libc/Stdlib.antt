-- ===== src/Libc/Stdlib.antt =====
-- src/kernel/src/libc/stdlib.c: `atoi`.
use amethyst_os_old.Base.{ℕ, ◌+◌, ◌-◌, ◌*◌, ◌%◌, ◌^◌, List, [], ◌∷◌, ◌==◌, ltb, if◌then◌else◌}
use amethyst_os_old.Libc.Strings.{isspace}

unfoldable pub skip_spaces : List ℕ → List ℕ
skip_spaces [] = []
skip_spaces (c ∷ s) = if isspace c then skip_spaces s else c ∷ s

-- A `char` as an `int`, given by its bit pattern: `char` is signed.
abbrev pub char_to_int : ℕ → ℕ
char_to_int c = if ltb c 128 then c else 2 ^ 32 - 256 + c

-- The loop of `atoi`, on 32-bit patterns.
unfoldable pub atoi_loop : List ℕ → ℕ → ℕ
atoi_loop [] res = res
atoi_loop (c ∷ s) res =
    if c == 0 then res else atoi_loop s ((res * 10 + char_to_int c + 2 ^ 32 - b'0') % 2 ^ 32)

unfoldable pub atoi : List ℕ → ℕ
unfolding skip_spaces atoi_loop
atoi s = atoi_loop (skip_spaces s) 0
