-- ===== src/Libc/Strings/Compare.antt =====
-- What `strcmp` and `strnlen` find.
use mathlib.Core.Logic.{◌↔◌}
use Prim.Native.Nat.{min}
use amethyst_os_old.Base.{
  ℕ, ◌-◌, ◌<◌, ◌≡◌, refl, List, [], ◌∷◌, arith, ◌==◌, if◌then◌else◌, All, length,
}
use amethyst_os_old.Libc.Strings.{strnlen, strcmp, below, same, above, at_end}

-- The bytes before the end of a string.
abbrev pub text : List ℕ → List ℕ
text [] = []
text (c ∷ s) = if c == 0 then [] else c ∷ text s

-- Each element is a byte.
abbrev pub Bytes : List ℕ → Type 0
Bytes = All (λ c. c < 256)

strcmp_sound : (s t : List ℕ) → Bytes s → Bytes t → strcmp s t ≡ same → text s ≡ text t
unfolding strcmp at_end
strcmp_sound [] [] hs ht e = refl
strcmp_sound [] (d ∷ t) hs ht e = ground arith
strcmp_sound (c ∷ s) [] hs ht e = ground arith
strcmp_sound (c ∷ s) (d ∷ t) hs ht e = ground (arith, strcmp_sound s t hs.1 ht.1)

strcmp_complete : (s t : List ℕ) → Bytes s → Bytes t → text s ≡ text t → strcmp s t ≡ same
unfolding strcmp at_end
strcmp_complete [] [] hs ht e = refl
strcmp_complete [] (d ∷ t) hs ht e = ground arith
strcmp_complete (c ∷ s) [] hs ht e = ground arith
strcmp_complete (c ∷ s) (d ∷ t) hs ht e = ground (arith, strcmp_complete s t hs.1 ht.1)

-- `strcmp` returns 0 exactly for strings with the same bytes before their ends.
pub strcmp_same_iff : (s t : List ℕ) → Bytes s → Bytes t → (strcmp s t ≡ same) ↔ (text s ≡ text t)
strcmp_same_iff s t hs ht = (strcmp_sound s t hs ht, strcmp_complete s t hs ht)

-- On ASCII strings `strcmp` is antisymmetric.
pub strcmp_swap :
    (s t : List ℕ)
    → All (λ c. c < 128) s
    → All (λ c. c < 128) t
    → (strcmp s t ≡ below) ↔ (strcmp t s ≡ above)
unfolding strcmp at_end
strcmp_swap [] [] hs ht = (λ e. ground arith, λ e. ground arith)
strcmp_swap [] (d ∷ t) hs ht = (λ e. ground arith, λ e. ground arith)
strcmp_swap (c ∷ s) [] hs ht = (λ e. ground arith, λ e. ground arith)
strcmp_swap (c ∷ s) (d ∷ t) hs ht =
    let ih = strcmp_swap s t hs.1 ht.1 in (λ e. ground (arith, ih.0), λ e. ground (arith, ih.1))

-- `strnlen` is the length of the string, cut off at `maxlen`.
pub strnlen_lem : (s : List ℕ) (maxlen : ℕ) → strnlen s maxlen ≡ min maxlen (length (text s))
unfolding strnlen
strnlen_lem [] maxlen = omega arith
strnlen_lem (c ∷ s) maxlen = ground (arith, strnlen_lem s (maxlen - 1))
