-- ===== src/Installer/Fat12.antt =====
-- src/installer/src/sys/disk/fs/fat12.c: the FAT12 file system, on entries in memory. A pointer is an
-- address, and 0 is `NULL`; names are C strings, as lists of bytes.
pub mod Cluster
pub mod Dir
pub mod Files
pub mod Name
mod Tests
use amethyst_os_old.Base.{
  ℕ, zero, suc, ◌+◌, ◌-◌, ◌*◌, ◌/◌, ◌%◌, ◌^◌, Bool, Option, none, some, List, [], ◌∷◌, ◌++◌, ◌==◌,
  leb, if◌then◌else◌, add32, to_u16,
}
use amethyst_os_old.Kernel.Vga.{Store}
use amethyst_os_old.Libc.Stdlib.{char_to_int}
use amethyst_os_old.Installer.Disk.{Fat12Info}
use amethyst_os_old.Installer.Strings.{toupper}

-- `FAT12_DIRENT_NAME_LEN` and `FAT12_DIRENT_EXT_LEN`
abbrev pub name_len : ℕ
name_len = 8

abbrev pub ext_len : ℕ
ext_len = 3

-- The size of `fat12_entry`, and its fields in memory.
abbrev pub entry_size : ℕ
entry_size = 32

abbrev pub attributes : Store → ℕ → ℕ
attributes m entry = m (add32 entry 11)

abbrev pub volume_label : Store → ℕ → Bool
volume_label m entry = attributes m entry / 8 % 2 == 1

abbrev pub subdirectory : Store → ℕ → Bool
subdirectory m entry = attributes m entry / 16 % 2 == 1

abbrev pub first_logical_cluster : Store → ℕ → ℕ
first_logical_cluster m entry = m (add32 entry 26) + 256 * m (add32 entry 27)

-- The two loops that copy a part of a name, up to the first space.
unfoldable pub copy_part : Store → ℕ → ℕ → List ℕ
copy_part m it zero = []
copy_part m it (suc n) =
    let rest = copy_part m (add32 it 1) n in if m it == b' ' then [] else m it ∷ rest

-- The bytes that it writes in front of the final zero. Its callers pass no null pointer.
unfoldable pub clusterfilename_to_filename : Store → ℕ → List ℕ
clusterfilename_to_filename m src =
    let ext = add32 src name_len in
    copy_part m src name_len
    ++ ((if m ext == b' ' then [] else b'.' ∷ []) ++ copy_part m ext ext_len)

unfoldable pub regularfilename_to_filename : List ℕ → List ℕ
regularfilename_to_filename [] = []
regularfilename_to_filename (c ∷ s) =
    if c == 0 then [] else toupper c ∷ regularfilename_to_filename s

-- The `int` value of the byte that it reads: a `char` is signed.
abbrev pub table_value : Fat12Info → Store → ℕ → ℕ → ℕ
table_value info m fats cluster =
    char_to_int (m (add32 fats ((cluster + cluster / 2) % info.bytes_per_sector)))

-- `>> 4` on an `int` keeps its sign. The result is a `uint16_t`.
unfoldable pub next_cluster : Fat12Info → Store → ℕ → ℕ → ℕ
next_cluster info m fats cluster =
    let value = table_value info m fats cluster in
    if cluster % 2 == 1
    then to_u16 (value / 16 + (if leb 0x8000_0000 value then 0xf000_0000 else 0))
    else value % 0x1000

-- The sum is made in 32 bits.
unfoldable pub cluster_to_lba : Fat12Info → ℕ → ℕ
cluster_to_lba info cluster =
    let bytes = info.bytes_per_sector in
    let root = (info.max_root_entry_count * 32 + (bytes - 1)) / bytes in
    let first = info.reserved_sector_count + info.fat_count * info.sector_per_fat + root in
    ((cluster + 2 ^ 32 - 2) * info.sector_per_cluster + first) % 2 ^ 32

-- The name up to the first '/', and what follows that, if there is one.
unfoldable pub split_name : List ℕ → List ℕ × Option (List ℕ)
split_name [] = ([], none)
split_name (c ∷ s) =
    if c == b'/'
    then ([], some s)
    else if c == 0
    then ([], none)
    else (let (name, next) = split_name s in (c ∷ name, next))

-- `none` is for an empty name, which is an invalid argument.
unfoldable pub filename_tokenize : List ℕ → Option (List ℕ × Option (List ℕ))
filename_tokenize [] = none
filename_tokenize (c ∷ s) = if c == 0 then none else some (split_name (c ∷ s))
