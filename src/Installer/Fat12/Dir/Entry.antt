-- ===== src/Installer/Fat12/Dir/Entry.antt =====
-- What `fat12_create_dir_entry` leaves in memory.
use amethyst_os_old.Base.{
  ℕ, ◌+◌, ◌/◌, ◌%◌, ◌^◌, ◌≤◌, ◌<◌, ◌≡◌, ◌≢◌, ◌⊎◌, inr, refl, ap, ◌∙◌, false, ◌||◌, List, arith,
  ◌==◌, if◌then◌else◌, add32, length,
}
use amethyst_os_old.Kernel.Vga.{Store}
use amethyst_os_old.Installer.Machine.{Machine}
use amethyst_os_old.Installer.Fat12.{clusterfilename_to_filename}
use amethyst_os_old.Installer.Fat12.Dir.{
  DirEntryType, type_code, entry_type, dir_entry_size, name_at, write_text, write_small,
  fat12_create_dir_entry,
}
use amethyst_os_old.Installer.Fat12.Dir.Written.{
  Text, SameOutside, write_text_frame, write_text-Text, Text-ext, length-filename, attributes_ext,
}

-- A `dir_entry_t` in memory: its type as four bytes, and its name.
abbrev pub IsEntry : Store → ℕ → DirEntryType → List ℕ → Type 0
IsEntry m at kind name =
    (m at ≡ type_code kind)
    × (m (at + 1) ≡ 0)
    × (m (at + 2) ≡ 0)
    × (m (at + 3) ≡ 0)
    × Text m (at + name_at) name

pub IsEntry-ext :
    (m m' : Store) (at : ℕ) (kind : DirEntryType) (name : List ℕ)
    → length name ≤ 12
    → ((a : ℕ) → at ≤ a → a < at + dir_entry_size → m' a ≡ m a)
    → IsEntry m at kind name
    → IsEntry m' at kind name
IsEntry-ext m m' at kind name short e h = (
  e at (omega arith) (omega arith) ∙ h.0,
  e (at + 1) (omega arith) (omega arith) ∙ h.1,
  e (at + 2) (omega arith) (omega arith) ∙ h.2,
  e (at + 3) (omega arith) (omega arith) ∙ h.3,
  Text-ext m m' (at + name_at) name (λ a lo hi. e a (omega arith) (omega arith)) h.4,
)

write_small_frame :
    (at v : ℕ) (m : Store) → at + 4 ≤ 2 ^ 32 → SameOutside at (at + 4) m (write_small at v m)
unfolding write_small
write_small_frame at v m fits a away = ground arith

write_small_bytes :
    (at v : ℕ) (m : Store)
    → at + 4 ≤ 2 ^ 32
    → (write_small at v m at ≡ v)
      × (write_small at v m (at + 1) ≡ 0)
      × (write_small at v m (at + 2) ≡ 0)
      × (write_small at v m (at + 3) ≡ 0)
unfolding write_small
write_small_bytes at v m fits = ground arith

-- An entry of 32 bytes and a place of 20 that do not overlap, both not null.
pub record CanCreate (entry to : ℕ) : Type 0 where
  pub given : entry ≢ 0
  pub given_to : to ≢ 0
  pub fits : entry + 32 ≤ 2 ^ 32
  pub fits_to : to + dir_entry_size ≤ 2 ^ 32
  pub apart : (entry + 32 ≤ to) ⊎ (to + dir_entry_size ≤ entry)

module _ (entry to : ℕ) (m : Machine) (can : CanCreate entry to) where
  abbrev name : List ℕ
  name = clusterfilename_to_filename m.memory entry

  abbrev named : Store
  named = write_text (add32 to name_at) name m.memory

  at_name : add32 to name_at ≡ to + name_at
  at_name = omega (arith, can.fits_to)

  named_frame : SameOutside (to + name_at) (to + name_at + length name + 1) m.memory named
  named_frame a away =
      ap (λ p. write_text p name m.memory a) at_name
      ∙ write_text_frame (to + name_at) name m.memory
          (omega (arith, can.fits_to, length-filename m.memory entry)) a away

  same_type : entry_type named entry ≡ entry_type m.memory entry
  same_type =
      ap (λ b. if b / 16 % 2 == 1 then DirEntryType.directory else DirEntryType.file)
        (attributes_ext entry m.memory named can.fits
          (λ a lo hi. named_frame a (omega (arith, can.apart, length-filename m.memory entry))))

  create_eq :
      fat12_create_dir_entry entry to m
      ≡ record m { memory = write_small to (type_code (entry_type m.memory entry)) named }
  unfolding fat12_create_dir_entry
  create_eq =
      let go : (entry == 0 || to == 0) ≡ false = ground (arith, can.given, can.given_to) in
      rw (go, fat12_create_dir_entry, same_type) refl

  -- The name and the type of the entry are written to the place, and nothing else is.
  pub create-IsEntry :
      IsEntry (fat12_create_dir_entry entry to m).memory to (entry_type m.memory entry) name
      × SameOutside to (to + dir_entry_size) m.memory (fat12_create_dir_entry entry to m).memory
      × ((fat12_create_dir_entry entry to m).heap ≡ m.heap)
      × ((fat12_create_dir_entry entry to m).err ≡ m.err)
  create-IsEntry =
      let short = length-filename m.memory entry in
      let v = type_code (entry_type m.memory entry) in
      let small = write_small_bytes to v named (omega (arith, can.fits_to)) in
      let frame = write_small_frame to v named (omega (arith, can.fits_to)) in
      let text : Text named (to + name_at) name =
        Text-ext _ _ (to + name_at) name (λ a lo hi. ap (λ p. write_text p name m.memory a) at_name)
          (write_text-Text (to + name_at) name m.memory (omega (arith, short, can.fits_to))) in
      rw create_eq (
        (
          small.0,
          small.1,
          small.2,
          small.3,
          Text-ext named (write_small to v named) (to + name_at) name
              (λ a lo hi. frame a (inr (omega arith))) text,
        ),
        λ a away. frame a (ground arith) ∙ named_frame a (ground arith),
        refl,
        refl,
      )
