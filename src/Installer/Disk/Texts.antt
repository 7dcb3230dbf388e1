-- ===== src/Installer/Disk/Texts.antt =====
-- Texts in the header of a disk, and the functions of string.c on them.
use amethyst_os_old.Base.{
  ℕ, suc, ◌+◌, ◌≤◌, ◌<◌, ◌≡◌, ◌≢◌, refl, ap, ◌∙◌, false, some, List, [], ◌∷◌, ◌++◌, arith, ◌==◌,
  All, length, get_or,
}
use amethyst_os_old.Kernel.Vga.{Store}
use amethyst_os_old.Libc.Strings.{strcmp, at_end, same, char_ltb}
use amethyst_os_old.Installer.Strings.{strchr, strcpy}
use amethyst_os_old.Installer.Disk.Create.{u8_at, bytes_at, overwrite}

-- The bytes of a text from a place on.
abbrev pub Spells : (ℕ → ℕ) → ℕ → List ℕ → Type 0
Spells f k [] = Unit
Spells f k (c ∷ s) = (f k ≡ c) × Spells f (k + 1) s

module _ (f : Store) (a : ℕ) where
  pub strcpy_label :
      (k : ℕ) (s : List ℕ)
      → All (λ c. c ≢ 0) s
      → Spells (u8_at f a) k s
      → u8_at f a (k + length s) ≡ 0
      → strcpy (bytes_at f a k (length s + 1)) ≡ s
  unfolding strcpy bytes_at
  strcpy_label k [] nz h stop = ground arith
  strcpy_label k (c ∷ s) nz h stop =
      let shift : k + 1 + length s ≡ k + length (c ∷ s) = omega arith in
      let more : length (c ∷ s) + 1 ≡ suc (length s + 1) = omega arith in
      let on : (u8_at f a k == 0) ≡ false = ground arith in
      rw (more, on, h.0, strcpy_label (k + 1) s nz.1 h.1 (ap (u8_at f a) shift ∙ stop)) refl

  pub strchr_space :
      (k n : ℕ) (s : List ℕ)
      → All (λ c. (c ≢ 0) × (c ≢ b' ')) s
      → Spells (u8_at f a) k s
      → u8_at f a (k + length s) ≡ b' '
      → strchr (bytes_at f a k (length s + suc n)) b' ' ≡ some (length s)
  unfolding strchr bytes_at
  strchr_space k n [] nz h stop = ground arith
  strchr_space k n (c ∷ s) nz h stop =
      let shift : k + 1 + length s ≡ k + length (c ∷ s) = omega arith in
      let more : length (c ∷ s) + suc n ≡ suc (length s + suc n) = omega arith in
      let on : (u8_at f a k == 0) ≡ false = ground arith in
      let other : (u8_at f a k == b' ') ≡ false = ground arith in
      rw (more, other, on, strchr_space (k + 1) n s nz.1 h.1 (ap (u8_at f a) shift ∙ stop)) refl

  pub strcmp_text :
      (k n : ℕ) (s : List ℕ)
      → All (λ c. c ≢ 0) s
      → Spells (u8_at f a) k s
      → u8_at f a (k + length s) ≡ 0
      → strcmp (bytes_at f a k (length s + suc n)) s ≡ same
  unfolding strcmp at_end bytes_at
  strcmp_text k n [] nz h stop = ground arith
  strcmp_text k n (c ∷ s) nz h stop =
      let shift : k + 1 + length s ≡ k + length (c ∷ s) = omega arith in
      let more : length (c ∷ s) + suc n ≡ suc (length s + suc n) = omega arith in
      let on : (u8_at f a k == 0) ≡ false = ground arith in
      let rest = strcmp_text (k + 1) n s nz.1 h.1 (ap (u8_at f a) shift ∙ stop) in
      let low : char_ltb (u8_at f a k) c ≡ false = ground arith in
      let high : char_ltb c (u8_at f a k) ≡ false = ground arith in
      rw (more, strcmp, on, low, high) rest

pub overwrite_shorter :
    (s old : List ℕ)
    → length old ≡ length s + 1
    → overwrite s old ≡ s ++ (get_or old (length s) 0 ∷ [])
overwrite_shorter [] [] e = absurd (omega (arith, e))
overwrite_shorter [] (d ∷ []) e = refl
overwrite_shorter [] (d ∷ d' ∷ old) e = absurd (omega (arith, e))
overwrite_shorter (c ∷ s) [] e = absurd (omega (arith, e))
overwrite_shorter (c ∷ s) (d ∷ old) e = ap (λ t. c ∷ t) (overwrite_shorter s old (omega (arith, e)))

pub Spells-ext :
    (f g : ℕ → ℕ) (k : ℕ) (s : List ℕ)
    → ((j : ℕ) → k ≤ j → j < k + length s → g j ≡ f j)
    → Spells f k s
    → Spells g k s
Spells-ext f g k [] e h = tt
Spells-ext f g k (c ∷ s) e h = (
  e k (omega arith) (omega arith) ∙ h.0,
  Spells-ext f g (k + 1) s (λ j lo hi. e j (omega arith) (omega arith)) h.1,
)
