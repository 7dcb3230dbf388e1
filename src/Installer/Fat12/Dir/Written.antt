-- ===== src/Installer/Fat12/Dir/Written.antt =====
-- What memory holds after a name is written, and what the reading of an entry depends on.
use amethyst_os_old.Base.{
  ℕ, zero, suc, ◌+◌, ◌^◌, ◌≤◌, ◌<◌, ◌≡◌, ◌⊎◌, inl, refl, ap, ◌∙◌, List, [], ◌∷◌, ◌++◌, arith, ◌==◌,
  if◌then◌else◌, add32, length, length-append,
}
use amethyst_os_old.Kernel.Vga.{Store, poke}
use amethyst_os_old.Installer.Fat12.{copy_part, clusterfilename_to_filename, attributes}
use amethyst_os_old.Installer.Fat12.Dir.{write_text}

-- The bytes of a text and the zero behind it.
abbrev pub Text : Store → ℕ → List ℕ → Type 0
Text m at [] = m at ≡ 0
Text m at (c ∷ s) = (m at ≡ c) × Text m (at + 1) s

-- Outside of a range the two memories are the same.
abbrev pub SameOutside : ℕ → ℕ → Store → Store → Type 0
SameOutside from to m m' = (a : ℕ) → (a < from) ⊎ (to ≤ a) → m' a ≡ m a

pub write_text_frame :
    (at : ℕ) (s : List ℕ) (m : Store)
    → at + length s < 2 ^ 32
    → SameOutside at (at + length s + 1) m (write_text at s m)
unfolding write_text
write_text_frame at [] m fits a away = ground arith
write_text_frame at (c ∷ s) m fits a away =
    let next : add32 at 1 ≡ at + 1 = omega arith in
    rw next
      (write_text_frame (at + 1) s (poke m at c) (omega arith) a (ground arith) ∙ ground arith)

pub Text-ext :
    (m m' : Store) (at : ℕ) (s : List ℕ)
    → ((a : ℕ) → at ≤ a → a ≤ at + length s → m' a ≡ m a)
    → Text m at s
    → Text m' at s
Text-ext m m' at [] e h = e at (omega arith) (omega arith) ∙ h
Text-ext m m' at (c ∷ s) e h = (
  e at (omega arith) (omega arith) ∙ h.0,
  Text-ext m m' (at + 1) s (λ a lo hi. e a (omega arith) (omega arith)) h.1,
)

pub write_text-Text :
    (at : ℕ) (s : List ℕ) (m : Store) → at + length s < 2 ^ 32 → Text (write_text at s m) at s
unfolding write_text
write_text-Text at [] m fits = ground arith
write_text-Text at (c ∷ s) m fits =
    let step : write_text at (c ∷ s) m ≡ write_text (at + 1) s (poke m at c) =
      ap (λ a. write_text a s (poke m at c)) (omega arith) in
    (
      ap (λ f. f at) step
          ∙ write_text_frame (at + 1) s (poke m at c) (omega arith) at (inl (omega arith))
          ∙ ground arith,
      Text-ext _ _ (at + 1) s (λ a lo hi. ap (λ f. f a) step)
          (write_text-Text (at + 1) s (poke m at c) (omega arith)),
    )

copy_part_ext :
    (m m' : Store) (at n : ℕ)
    → at + n ≤ 2 ^ 32
    → ((a : ℕ) → at ≤ a → a < at + n → m' a ≡ m a)
    → copy_part m' at n ≡ copy_part m at n
unfolding copy_part
copy_part_ext m m' at zero fits e = refl
copy_part_ext m m' at (suc n) fits e =
    let here : m' at ≡ m at = e at (omega arith) (omega arith) in
    let rest =
      copy_part_ext m m' (add32 at 1) n (omega arith)
        (λ a lo hi. e a (omega arith) (omega arith)) in
    rw (here, rest) refl

length-copy_part : (m : Store) (at n : ℕ) → length (copy_part m at n) ≤ n
unfolding copy_part
length-copy_part m at zero = omega arith
length-copy_part m at (suc n) = ground (arith, length-copy_part m (add32 at 1) n)

pub length-filename : (m : Store) (src : ℕ) → length (clusterfilename_to_filename m src) ≤ 12
unfolding clusterfilename_to_filename
length-filename m src =
    let ext = add32 src 8 in
    let point : List ℕ = if m ext == b' ' then [] else b'.' ∷ [] in
    let one : length point ≤ 1 = ground arith in
    omega (
      arith,
      length-append (copy_part m src 8) (point ++ copy_part m ext 3),
      length-append point (copy_part m ext 3),
      length-copy_part m src 8,
      length-copy_part m ext 3,
      one,
    )

-- Two memories agree on the 32 bytes of an entry.
abbrev pub SameEntry : ℕ → Store → Store → Type 0
SameEntry entry m m' = (a : ℕ) → entry ≤ a → a < entry + 32 → m' a ≡ m a

module _ (entry : ℕ) (m m' : Store) (fits : entry + 32 ≤ 2 ^ 32) (e : SameEntry entry m m') where
  pub filename_ext : clusterfilename_to_filename m' entry ≡ clusterfilename_to_filename m entry
  unfolding clusterfilename_to_filename
  filename_ext =
      let point : m' (add32 entry 8) ≡ m (add32 entry 8) = e _ (omega arith) (omega arith) in
      let name : copy_part m' entry 8 ≡ copy_part m entry 8 =
        copy_part_ext m m' entry 8 (omega arith) (λ a lo hi. e a (omega arith) (omega arith)) in
      let ext : copy_part m' (add32 entry 8) 3 ≡ copy_part m (add32 entry 8) 3 =
        copy_part_ext m m' (add32 entry 8) 3 (omega arith)
          (λ a lo hi. e a (omega arith) (omega arith)) in
      rw (point, name, ext) refl

  pub attributes_ext : attributes m' entry ≡ attributes m entry
  attributes_ext = e _ (omega arith) (omega arith)
