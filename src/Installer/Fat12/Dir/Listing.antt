-- ===== src/Installer/Fat12/Dir/Listing.antt =====
-- The loop that copies the entries of a directory to its listing.
use mathlib.Core.Path.{subst}
use amethyst_os_old.Base.{
  Option, ℕ, zero, suc, ◌+◌, ◌*◌, ◌/◌, ◌%◌, ◌^◌, ◌≤◌, ◌<◌, ◌≡◌, ◌≢◌, ◌⊎◌, inl, inr, refl, sym, ap,
  ◌∙◌, false, some, List, ◌∷◌, arith, ◌==◌, if◌then◌else◌, add32, length, Bool-cases,
}
use amethyst_os_old.Kernel.Vga.{Store}
use amethyst_os_old.Kernel.Vga.Glyph.{IsMemory}
use amethyst_os_old.Libc.Stdlib.{char_to_int}
use amethyst_os_old.Installer.Machine.{Machine}
use amethyst_os_old.Installer.Fat12.{volume_label, entry_size}
use amethyst_os_old.Installer.Fat12.Dir.{
  DirEntryType, entry_type, dir_entry_size, copy_loop, fat12_create_dir_entry,
}
use amethyst_os_old.Installer.Fat12.Dir.Written.{
  SameOutside, SameEntry, filename_ext, attributes_ext, length-filename,
}
use amethyst_os_old.Installer.Fat12.Dir.Entry.{IsEntry, IsEntry-ext, CanCreate, create-IsEntry}
use amethyst_os_old.Installer.Fat12.Dir.Shown.{shown, IsDirectory, IsListing, in_use, not_deleted}

-- There is room for `n` entries behind one another, away from the directory and its end mark.
pub record HasRoom (k dir to n : ℕ) : Type 0 where
  pub given : dir ≢ 0
  pub given_to : to ≢ 0
  pub fits : dir + entry_size * suc k ≤ 2 ^ 32
  pub fits_to : to + dir_entry_size * n < 2 ^ 32
  pub apart : (dir + entry_size * suc k ≤ to) ⊎ (to + dir_entry_size * n ≤ dir)

-- What the loop that copies the entries ends with.
abbrev pub Copied : Store → ℕ → List ℕ → Machine → Machine → Type 0
Copied m₀ to l m m' =
    IsListing m₀ m'.memory to l
    × SameOutside to (to + dir_entry_size * length l) m.memory m'.memory
    × (m'.heap ≡ m.heap)
    × (m'.err ≡ m.err)

relabel :
    (m : Store) (at : ℕ) (kind kind' : DirEntryType) (name name' : List ℕ)
    → kind ≡ kind'
    → name ≡ name'
    → IsEntry m at kind name
    → IsEntry m at kind' name'
relabel m at kind kind' name name' e e' h = rw (sym e, sym e') h

entry_type_ext :
    (m m' : Store) (dir : ℕ)
    → dir + 32 ≤ 2 ^ 32
    → SameEntry dir m m'
    → entry_type m' dir ≡ entry_type m dir
entry_type_ext m m' dir fits same =
    ap (λ b. if b / 16 % 2 == 1 then DirEntryType.directory else DirEntryType.file)
      (attributes_ext dir m m' fits same)

-- A turn that takes the entry at `dir`, and the turns behind it.
Copied-cons :
    (m₀ : Store) (dir to : ℕ) (l : List ℕ) (m m' : Machine)
    → CanCreate dir to
    → SameEntry dir m₀ m.memory
    → Copied m₀ (to + dir_entry_size) l (fat12_create_dir_entry dir to m) m'
    → Copied m₀ to (dir ∷ l) m m'
Copied-cons m₀ dir to l m m' can same (later, frame, heap, err) =
    let (entry, frame', heap', err') = create-IsEntry dir to m can in
    let kept =
      IsEntry-ext _ m'.memory to _ _ (length-filename m.memory dir)
        (λ a lo hi. frame a (inl (omega arith))) entry in
    (
      (
        relabel m'.memory to _ _ _ _ (entry_type_ext m₀ m.memory dir can.fits same)
            (filename_ext dir m₀ m.memory can.fits same) kept,
        later,
      ),
      λ a away. frame a (ground arith) ∙ frame' a (ground arith),
      heap ∙ heap',
      err ∙ err',
    )

room_behind : (k dir to n : ℕ) → HasRoom (suc k) dir to n → HasRoom k (dir + entry_size) to n
room_behind k dir to n room = record {
  given = ground arith;
  given_to = room.given_to;
  fits = omega (arith, room.fits);
  fits_to = room.fits_to;
  apart = ground (arith, room.apart);
}

room_taken :
    (k dir to n : ℕ)
    → HasRoom (suc k) dir to (suc n)
    → CanCreate dir to × HasRoom k (dir + entry_size) (to + dir_entry_size) n
room_taken k dir to n room = (
  record {
    given = room.given;
    given_to = room.given_to;
    fits = omega (arith, room.fits);
    fits_to = omega (arith, room.fits_to);
    apart = ground (arith, room.apart);
  },
  record {
    given = ground arith;
    given_to = ground arith;
    fits = omega (arith, room.fits);
    fits_to = omega (arith, room.fits_to);
    apart = ground (arith, room.apart);
  },
)

-- The loop comes to an end with these entries copied.
abbrev pub Lists : Store → ℕ → List ℕ → Machine → Option Machine → Type 0
Lists m₀ to l m o = (m' : Machine) × (o ≡ some m') × Copied m₀ to l m m'

relist :
    (m₀ : Store) (to : ℕ) (l l' : List ℕ) (m : Machine) (o o' : Option Machine)
    → o' ≡ o
    → l' ≡ l
    → Lists m₀ to l m o
    → Lists m₀ to l' m o'
relist m₀ to l l' m o o' e e' (m', run, done) = (m', e ∙ run, rw e' done)

pub copy_loop_lem :
    (m₀ : Store) (k fuel dir to : ℕ) (m : Machine)
    → IsMemory m₀
    → IsDirectory m₀ k dir
    → ((a : ℕ) → dir ≤ a → a < dir + entry_size * suc k → m.memory a ≡ m₀ a)
    → HasRoom k dir to (length (shown m₀ k dir))
    → k < fuel
    → Lists m₀ to (shown m₀ k dir) m (copy_loop fuel dir to m)
unfolding copy_loop
copy_loop_lem m₀ k zero dir to m bytes d same room lt = absurd (omega arith)
copy_loop_lem m₀ zero (suc fuel) dir to m bytes d same room lt =
    let stop : m.memory dir ≡ 0 = same dir (omega arith) (omega arith) ∙ d in
    (m, rw (stop, copy_loop) refl, (tt, λ a away. refl, refl, refl))
copy_loop_lem m₀ (suc k) (suc fuel) dir to m bytes d same room lt =
    let next : add32 dir entry_size ≡ dir + entry_size = omega (arith, room.fits) in
    let here : m.memory dir ≡ m₀ dir = same dir (omega arith) (omega arith) in
    let used : (char_to_int (m.memory dir) == 0) ≡ false =
      ap (λ b. char_to_int b == 0) here ∙ in_use (m₀ dir) (bytes dir) d.0 in
    let kept : (char_to_int (m.memory dir) == 0xe5) ≡ false =
      ap (λ b. char_to_int b == 0xe5) here ∙ not_deleted (m₀ dir) (bytes dir) in
    let same_entry : SameEntry dir m₀ m.memory = λ a lo hi. same a lo (omega arith) in
    let label : volume_label m.memory dir ≡ volume_label m₀ dir =
      ap (λ b. b / 8 % 2 == 1)
        (attributes_ext dir m₀ m.memory (omega (arith, room.fits)) same_entry) in
    let l = shown m₀ k (dir + entry_size) in
    elim (Bool-cases (volume_label m₀ dir)) [
      | inl skip ↦
          let none_shown : shown m₀ (suc k) dir ≡ l = rw skip refl in
          let room' : HasRoom (suc k) dir to (length l) =
            subst (λ n. HasRoom (suc k) dir to n) (ap length none_shown) room in
          relist m₀ to l (shown m₀ (suc k) dir) m _ _
            (rw (used, kept, label, skip, next, copy_loop) refl) none_shown
            (copy_loop_lem m₀ k fuel (dir + entry_size) to m bytes d.1
              (λ a lo hi. same a (omega arith) (omega arith)) (room_behind k dir to _ room')
              (omega arith))
      | inr take ↦
          let one_shown : shown m₀ (suc k) dir ≡ dir ∷ l = rw take refl in
          let room' : HasRoom (suc k) dir to (suc (length l)) =
            subst (λ n. HasRoom (suc k) dir to n) (ap length one_shown) room in
          let (can, room'') = room_taken k dir to (length l) room' in
          let place : add32 to dir_entry_size ≡ to + dir_entry_size =
            omega (arith, room'.fits_to) in
          let m₁ = fat12_create_dir_entry dir to m in
          let frame = (create-IsEntry dir to m can).1 in
          let (m', run, done) =
            copy_loop_lem m₀ k fuel (dir + entry_size) (to + dir_entry_size) m₁ bytes d.1
              (λ a lo hi.
                frame a (ground (arith, room'.apart)) ∙ same a (omega arith) (omega arith))
              room'' (omega arith) in
          relist m₀ to (dir ∷ l) (shown m₀ (suc k) dir) m _ _
            (rw (used, kept, label, take, next, place, copy_loop) refl) one_shown
            (m', run, Copied-cons m₀ dir to l m m' can same_entry done)
    ]
