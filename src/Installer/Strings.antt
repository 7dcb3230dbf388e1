-- ===== src/Installer/Strings.antt =====
-- src/installer/src/std/string.c and ctype.c: what the kernel's library lacks. A C string is the list
-- of its bytes: it ends at the first zero byte, or with the list.
pub mod Copy
use mathlib.Core.Option
use amethyst_os_old.Base.{
  ℕ, zero, suc, ◌-◌, ◌&&◌, Option, none, some, List, [], ◌∷◌, ◌==◌, leb, if◌then◌else◌, for_to,
  add32,
}
use amethyst_os_old.Kernel.Vga.{Store, poke}
use amethyst_os_old.Installer.Machine.{Machine}
use amethyst_os_old.Installer.Alloc.{malloc}

unfoldable pub toupper : ℕ → ℕ
toupper c = if leb b'a' c && leb c b'z' then c - 0x20 else c

-- The position of a character, or `none` for `NULL`.
unfoldable pub strchr : List ℕ → ℕ → Option ℕ
strchr [] ch = if ch == 0 then some 0 else none
strchr (c ∷ s) ch =
    if c == ch then some 0 else if c == 0 then none else Option.map (λ i. suc i) (strchr s ch)

-- The bytes that it writes: the zero at the end is not one of them.
unfoldable pub strcpy : List ℕ → List ℕ
strcpy [] = []
strcpy (c ∷ s) = if c == 0 then [] else c ∷ strcpy s

-- The loop of `memcpy`.
unfoldable pub copy_bytes : ℕ → ℕ → ℕ → Store → Store
copy_bytes dest src count m = for_to count (λ i s. poke s (add32 dest i) (s (add32 src i))) m

-- A null `dest` is replaced by memory from the heap.
unfoldable pub memcpy : ℕ → ℕ → ℕ → Machine → ℕ × Machine
memcpy dest src count m =
    let (to, m') = if dest == 0 then malloc count m else (dest, m) in
    (to, record m' { memory = copy_bytes to src count m'.memory })
