-- ===== src/Installer/Fat12/Files/Search.antt =====
-- Which entry of a directory a search finds.
use amethyst_os_old.Base.{
  ℕ, zero, suc, ◌<◌, ◌≡◌, ◌≢◌, ◌⊎◌, refl, ◌∙◌, false, inl, inr, some, List, arith, ◌==◌, add32,
}
use amethyst_os_old.Kernel.Vga.{Store}
use amethyst_os_old.Kernel.Vga.Glyph.{IsMemory}
use amethyst_os_old.Libc.Strings.{strcmp, Cmp, same, below, above}
use amethyst_os_old.Libc.Stdlib.{char_to_int}
use amethyst_os_old.Installer.Error.{Error}
use amethyst_os_old.Installer.Machine.{Machine, raise, failed}
use amethyst_os_old.Installer.Fat12.{entry_size, clusterfilename_to_filename}
use amethyst_os_old.Installer.Fat12.Files.{find_loop, find_entry}

-- The address of the entry number `k` of a directory.
abbrev pub nth : ℕ → ℕ → ℕ
nth dir zero = dir
nth dir (suc k) = nth (add32 dir entry_size) k

-- The entry is in use or deleted, and has another name.
abbrev pub Differs : Store → List ℕ → ℕ → Type 0
Differs m name entry = (m entry ≢ 0) × (strcmp (clusterfilename_to_filename m entry) name ≢ same)

-- What a search comes to at an entry that ends it: behind the last one, or at the name.
abbrev pub Ends : List ℕ → ℕ → Machine → ℕ × Machine → Type 0
Ends name entry m r =
    (m.memory entry ≡ 0) × (r ≡ (0, raise Error.notfound m))
    ⊎ (m.memory entry ≢ 0)
      × (strcmp (clusterfilename_to_filename m.memory entry) name ≡ same)
      × (r ≡ (entry, m))

-- As a `char` no byte is 0xE5, and only 0 is 0.
never_deleted : (b : ℕ) → b < 256 → (char_to_int b == 0xe5) ≡ false
never_deleted b lt = ground arith

not_last : (b : ℕ) → b < 256 → b ≢ 0 → (char_to_int b == 0) ≡ false
not_last b lt h = ground arith

other_name {ℓ} :
    {A : Type ℓ} (c : Cmp) (a b : A)
    → c ≢ same
    → elim c as (λ x. A) [ same ↦ a | below ↦ b | above ↦ b ] ≡ b
other_name same a b h = absurd (h refl)
other_name below a b h = refl
other_name above a b h = refl

find_loop_step :
    (fuel dir : ℕ) (name : List ℕ) (m : Machine)
    → IsMemory m.memory
    → failed m ≡ false
    → Differs m.memory name dir
    → find_loop (suc fuel) dir name m ≡ find_loop fuel (add32 dir entry_size) name m
unfolding find_loop
find_loop_step fuel dir name m bytes ok h =
    rw (not_last _ (bytes dir) h.0, never_deleted _ (bytes dir), ok, find_loop)
      (other_name _ _ _ h.1)

find_loop_here :
    (fuel dir : ℕ) (name : List ℕ) (m : Machine) (r : ℕ × Machine)
    → IsMemory m.memory
    → failed m ≡ false
    → Ends name dir m r
    → find_loop (suc fuel) dir name m ≡ some r
unfolding find_loop
find_loop_here fuel dir name m r bytes ok (inl (z, e)) = rw (z, e, find_loop) refl
find_loop_here fuel dir name m r bytes ok (inr (z, s, e)) =
    rw (not_last _ (bytes dir) z, never_deleted _ (bytes dir), ok, s, e, find_loop) refl

find_loop-Ends :
    (k fuel dir : ℕ) (name : List ℕ) (m : Machine) (r : ℕ × Machine)
    → IsMemory m.memory
    → failed m ≡ false
    → ((i : ℕ) → i < k → Differs m.memory name (nth dir i))
    → Ends name (nth dir k) m r
    → k < fuel
    → find_loop fuel dir name m ≡ some r
find_loop-Ends k zero dir name m r bytes ok before e lt = absurd (omega arith)
find_loop-Ends zero (suc fuel) dir name m r bytes ok before e lt =
    find_loop_here fuel dir name m r bytes ok e
find_loop-Ends (suc k) (suc fuel) dir name m r bytes ok before e lt =
    find_loop_step fuel dir name m bytes ok (before 0 (omega arith))
    ∙ find_loop-Ends k fuel (add32 dir entry_size) name m r bytes ok
        (λ i small. before (suc i) (omega arith)) e (omega arith)

-- In a directory that is not null, in a memory of bytes and with no error set, `find_entry` finds the
-- first entry with the name, or sets `notfound` and gives 0 at the entry that starts with a zero byte,
-- whichever comes first, given fuel for the entries up to there. The entries in front of it, deleted
-- ones too, are passed over for their names alone.
pub find_entry_first :
    (k fuel dir : ℕ) (name : List ℕ) (m : Machine) (r : ℕ × Machine)
    → dir ≢ 0
    → IsMemory m.memory
    → failed m ≡ false
    → ((i : ℕ) → i < k → Differs m.memory name (nth dir i))
    → Ends name (nth dir k) m r
    → k < fuel
    → find_entry fuel dir name m ≡ some r
unfolding find_entry
find_entry_first k fuel dir name m r given bytes ok before e lt =
    let is_given : (dir == 0) ≡ false = ground arith in
    rw (is_given, find_entry) (find_loop-Ends k fuel dir name m r bytes ok before e lt)
