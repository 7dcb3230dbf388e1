-- ===== src/Installer/Fat12/Name.antt =====
-- Names in a directory entry against names in a path.
use mathlib.Core.List.{append-nil}
use amethyst_os_old.Base.{
  false, ℕ, zero, suc, ◌≡◌, ◌≢◌, refl, List, [], ◌∷◌, ◌++◌, arith, ◌==◌, add32, All,
}
use amethyst_os_old.Kernel.Vga.{Store}
use amethyst_os_old.Installer.Fat12.{copy_part, clusterfilename_to_filename}

-- A byte that may stand in a name.
abbrev pub IsNameByte : ℕ → Type 0
IsNameByte c = c ≢ b' '

-- A part of a name, filled up with spaces to `n` bytes, as it stands in memory at `at`.
abbrev pub Padded : Store → ℕ → ℕ → List ℕ → Type 0
Padded m at zero s = s ≡ []
Padded m at (suc n) [] = (m at ≡ b' ') × Padded m (add32 at 1) n []
Padded m at (suc n) (c ∷ s) = (m at ≡ c) × Padded m (add32 at 1) n s

copy_part-Padded :
    (m : Store) (at n : ℕ) (s : List ℕ) → All IsNameByte s → Padded m at n s → copy_part m at n ≡ s
unfolding copy_part
copy_part-Padded m at zero s h p = ground arith
copy_part-Padded m at (suc n) [] h p = ground arith
copy_part-Padded m at (suc n) (c ∷ s) h p =
    ground (arith, copy_part-Padded m (add32 at 1) n s h.1 p.1)

-- The name as a path spells it: a point stands in front of an extension.
abbrev pub spell : List ℕ → List ℕ → List ℕ
spell name [] = name
spell name (c ∷ ext) = name ++ (b'.' ∷ c ∷ ext)

-- An entry in memory that holds a name of up to 8 bytes and an extension of up to 3, both filled up
-- with spaces and without a space of their own, is turned into the name, followed by a point and the
-- extension if there is one.
pub clusterfilename_to_filename_lem :
    (m : Store) (src : ℕ) (name ext : List ℕ)
    → All IsNameByte name
    → All IsNameByte ext
    → Padded m src 8 name
    → Padded m (add32 src 8) 3 ext
    → clusterfilename_to_filename m src ≡ spell name ext
unfolding clusterfilename_to_filename
clusterfilename_to_filename_lem m src name [] h k p q =
    rw (copy_part-Padded m src 8 name h p, copy_part-Padded m (add32 src 8) 3 [] k q, q.0)
      (append-nil name)
clusterfilename_to_filename_lem m src name (c ∷ ext) h k p q =
    let point : (m (add32 src 8) == b' ') ≡ false = ground arith in
    rw (copy_part-Padded m src 8 name h p, copy_part-Padded m (add32 src 8) 3 (c ∷ ext) k q, point)
      refl
