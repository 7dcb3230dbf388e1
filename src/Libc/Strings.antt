-- ===== src/Libc/Strings.antt =====
-- src/kernel/src/libc/string.c and ctype.c, less `strlen`, which returns no value. A C string is the list of
-- its bytes: it ends at the first zero byte, or with the list. A `char` is signed.
pub mod Compare
mod Tests
use amethyst_os_old.Base.{
  ℕ, ◌+◌, ◌-◌, ◌%◌, Bool, ◌&&◌, ◌||◌, List, [], ◌∷◌, ◌==◌, ltb, leb, if◌then◌else◌,
}

unfoldable pub isspace : ℕ → Bool
isspace c = c == b' ' || c == b'\n' || c == b'\t' || c == 0xb || c == 0xc || c == b'\r'

unfoldable pub isdigit : ℕ → Bool
isdigit c = leb b'0' c && leb c b'9'

unfoldable pub strnlen : List ℕ → ℕ → ℕ
strnlen [] maxlen = 0
strnlen (c ∷ s) maxlen = if c == 0 then 0 else if maxlen == 0 then 0 else strnlen s (maxlen - 1) + 1

-- What `strcmp` returns: -1, 0 or 1.
pub data Cmp : Type 0 where
  below same above : Cmp

-- `<` on `char`
abbrev pub char_ltb : ℕ → ℕ → Bool
char_ltb a b = ltb ((a + 128) % 256) ((b + 128) % 256)

-- The part behind the loop of `strcmp`.
unfoldable pub at_end : List ℕ → Cmp
at_end [] = same
at_end (d ∷ t) = if d == 0 then same else below

-- The first element of a string, 0 at its end.
abbrev pub first : List ℕ → ℕ
first [] = 0
first (c ∷ s) = c

abbrev pub rest : List ℕ → List ℕ
rest [] = []
rest (c ∷ s) = s

unfoldable pub strcmp : List ℕ → List ℕ → Cmp
strcmp [] t = at_end t
strcmp (c ∷ s) t =
    if c == 0
    then at_end t
    else if char_ltb c (first t)
    then below
    else if char_ltb (first t) c
    then above
    else strcmp s (rest t)
