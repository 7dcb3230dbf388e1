-- ===== src/Installer/Fat12/Dir.antt =====
-- src/installer/src/sys/disk/fs/fat12.c: listing a directory; with `dir_close` and
-- `file_read` of dir.c and file.c in src/installer/src/sys/disk, which choose the file system.
pub mod Entry
pub mod Listing
pub mod Open
pub mod Shown
pub mod Written
use mathlib.Core.Option
use amethyst_os_old.Base.{
  Bool, true, false, ℕ, zero, suc, ◌+◌, ◌*◌, ◌%◌, ◌^◌, ◌||◌, Option, none, some, List, [], ◌∷◌,
  ◌==◌, if◌then◌else◌, add32, codes,
}
use amethyst_os_old.Kernel.Vga.{Store, poke}
use amethyst_os_old.Libc.Strings.{strcmp, Cmp, same}
use amethyst_os_old.Libc.Stdlib.{char_to_int}
use amethyst_os_old.Installer.Error.{Error}
use amethyst_os_old.Installer.Machine.{Machine, raise, failed}
use amethyst_os_old.Installer.Alloc.{malloc, free}
use amethyst_os_old.Installer.Disk.{FsType, Disk, Int13}
use amethyst_os_old.Installer.Fat12.{
  entry_size, volume_label, subdirectory, clusterfilename_to_filename,
}
use amethyst_os_old.Installer.Fat12.Files.{read_root_directory, read_directory, fat12_file_read}

-- `dir_entry_type`
pub data DirEntryType : Type 0 where
  unknown : DirEntryType
  directory : DirEntryType
  file : DirEntryType

abbrev pub type_code : DirEntryType → ℕ
type_code DirEntryType.unknown = 0
type_code DirEntryType.directory = 1
type_code DirEntryType.file = 2

-- The sizes of `dir_entry_t` and `dir_t`, and the place of the name in an entry.
abbrev pub dir_entry_size : ℕ
dir_entry_size = 20

abbrev pub dir_size : ℕ
dir_size = 12

abbrev pub name_at : ℕ
name_at = 4

-- `dir_t`: the disk is the value that its pointer points to.
pub record Dir : Type 0 where
  pub disk : Disk
  pub entries : ℕ
  pub entry_count : ℕ

-- A text and a zero byte from an address on.
unfoldable pub write_text : ℕ → List ℕ → Store → Store
write_text at [] m = poke m at 0
write_text at (c ∷ s) m = write_text (add32 at 1) s (poke m at c)

-- An `int` below 256, low byte first.
unfoldable pub write_small : ℕ → ℕ → Store → Store
write_small at v m = poke (poke (poke (poke m at v) (add32 at 1) 0) (add32 at 2) 0) (add32 at 3) 0

abbrev pub entry_type : Store → ℕ → DirEntryType
entry_type m entry = if subdirectory m entry then DirEntryType.directory else DirEntryType.file

-- The name is read before any of it is written: the two do not overlap.
unfoldable pub fat12_create_dir_entry : ℕ → ℕ → Machine → Machine
fat12_create_dir_entry entry to m =
    if entry == 0 || to == 0
    then raise Error.invarg m
    else (let named =
          write_text (add32 to name_at) (clusterfilename_to_filename m.memory entry) m.memory in
        record m { memory = write_small to (type_code (entry_type named entry)) named })

-- The two loops of `fat12_dir_open`. `none` is a loop that its fuel does not suffice for.
unfoldable pub count_loop : ℕ → ℕ → ℕ → Store → Option ℕ
count_loop zero entry count m = none
count_loop (suc fuel) entry count m = elim (char_to_int (m entry) == 0) [
  | true ↦ some count
  | false ↦ elim (char_to_int (m entry) == 0xe5 || volume_label m entry) [
    | true ↦ count_loop fuel (add32 entry entry_size) count m
    | false ↦ count_loop fuel (add32 entry entry_size) (count + 1) m
  ]
]

unfoldable pub copy_loop : ℕ → ℕ → ℕ → Machine → Option Machine
copy_loop zero entry to m = none
copy_loop (suc fuel) entry to m = elim (char_to_int (m.memory entry) == 0) [
  | true ↦ some m
  | false ↦ elim (char_to_int (m.memory entry) == 0xe5 || volume_label m.memory entry) [
    | true ↦ copy_loop fuel (add32 entry entry_size) to m
    | false ↦
        copy_loop fuel (add32 entry entry_size) (add32 to dir_entry_size)
          (fat12_create_dir_entry entry to m)
  ]
]

-- What `fat12_dir_open` does with the entries that it has read.
unfoldable pub list_entries : ℕ → ℕ → Disk → Machine → Option (Option Dir × Machine)
list_entries fuel entries disk m = elim (count_loop fuel entries 0 m.memory) [
  | none ↦ none
  | some count ↦
      let (to, m') = malloc (count * dir_entry_size % 2 ^ 32) m in
      elim (failed m') [
        | true ↦ some (none, m')
        | false ↦
            Option.map
              (λ m''. (
                some (record { disk = disk; entries = to; entry_count = count }),
                free entries m'',
              ))
              (copy_loop fuel entries to m')
      ]
]

abbrev pub is_root : Option (List ℕ) → Bool
is_root none = true
is_root (some name) = elim (strcmp name (codes "/")) [ same ↦ true | _ ↦ false ]

module _ (int13 : Int13) (buffer : ℕ) where
  -- The entries of a directory; `junk` is the value of the pointer that is not initialised.
  unfoldable pub open_entries : ℕ → Disk → Option (List ℕ) → ℕ → Machine → Option (ℕ × Machine)
  open_entries fuel disk dirname junk m = elim dirname [
    | none ↦ some (read_root_directory int13 buffer disk m)
    | some name ↦
        if is_root (some name)
        then some (read_root_directory int13 buffer disk m)
        else read_directory int13 buffer disk fuel name junk m
  ]

  -- `dir` is the pointer to the directory.
  unfoldable pub fat12_dir_open :
      ℕ → Disk → ℕ → Option (List ℕ) → ℕ → Machine → Option (Option Dir × Machine)
  fat12_dir_open fuel disk dir dirname junk m = elim disk.fs_type [
    | FsType.unknown ↦ some (none, raise Error.invarg m)
    | FsType.fat12 ↦
        if dir == 0
        then some (none, raise Error.invarg m)
        else elim (open_entries fuel disk dirname junk m) [
          | none ↦ none
          | some (entries, m') ↦
              if failed m' then some (none, m') else list_entries fuel entries disk m'
        ]
  ]

  -- A null `disk` or `filename` gives a null pointer at once, and is not modelled.
  unfoldable pub file_read : ℕ → Disk → List ℕ → ℕ → Machine → Option (ℕ × Machine)
  file_read fuel disk filename junk m = elim disk.fs_type [
    | FsType.unknown ↦ some (0, raise Error.unknfs m)
    | FsType.fat12 ↦ fat12_file_read int13 buffer disk fuel filename junk m
  ]

unfoldable pub fat12_dir_close : Dir → Machine → Machine
fat12_dir_close d m = free d.entries m

-- `none` is a null pointer.
unfoldable pub dir_close : Option (ℕ × Dir) → Machine → Machine
dir_close none m = m
dir_close (some (p, d)) m = elim (d.disk).fs_type [
  | FsType.unknown ↦ free p (raise Error.unknfs m)
  | FsType.fat12 ↦ free p (fat12_dir_close d m)
]
