-- ===== src/Libc/Strings/Tests.antt =====
-- Runs of the string functions.
use amethyst_os_old.Base.{◌≡◌, refl, [], ◌∷◌, codes}
use amethyst_os_old.Libc.Strings.{strcmp, strnlen, at_end, below}

shorter_first : strcmp (codes "FAT") (codes "FAT12") ≡ below
unfolding strcmp at_end
shorter_first = refl

-- Beyond ASCII the order is not antisymmetric: each of these strings is below the other.
not_antisymmetric : strcmp (0xff ∷ []) [] ≡ below
unfolding strcmp at_end
not_antisymmetric = refl

not_antisymmetric_swapped : strcmp [] (0xff ∷ []) ≡ below
unfolding strcmp at_end
not_antisymmetric_swapped = refl

cut_off : strnlen (codes "FAT12") 3 ≡ 3
unfolding strnlen
cut_off = refl
