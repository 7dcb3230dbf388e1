-- ===== src/Installer/Disk/Create.antt =====
-- src/installer/src/sys/disk/disk.c and disk_create_fat12 of fs/fat12.c: opening and closing a disk.
-- `disk_get_param_int13` of disk.asm is a parameter: of a drive it gives a status, the number of
-- sectors in a track and the number of heads. So are the address of the array on the stack, and what
-- memory holds at a disk before it is filled in.
use amethyst_os_old.Base.{
  ℕ, zero, suc, ◌+◌, ◌-◌, ◌*◌, ◌||◌, Option, none, some, List, [], ◌∷◌, ◌==◌, if◌then◌else◌, add32,
  codes,
}
use amethyst_os_old.Kernel.Vga.{Store, poke}
use amethyst_os_old.Libc.Strings.{strcmp, same, below, above}
use amethyst_os_old.Installer.Error.{Error}
use amethyst_os_old.Installer.Machine.{Machine, raise}
use amethyst_os_old.Installer.Alloc.{malloc, free}
use amethyst_os_old.Installer.Strings.{strchr, strcpy}
use amethyst_os_old.Installer.Disk.{FsType, Fat12Info, Disk, Int13, disk_read}

-- The numbers and the bytes of a header in memory, the low byte first.
abbrev pub u8_at : Store → ℕ → ℕ → ℕ
u8_at m header k = m (add32 header k)

abbrev pub u16_at : Store → ℕ → ℕ → ℕ
u16_at m header k = u8_at m header k + 256 * u8_at m header (k + 1)

abbrev pub u32_at : Store → ℕ → ℕ → ℕ
u32_at m header k = u16_at m header k + 0x1_0000 * u16_at m header (k + 2)

unfoldable pub bytes_at : Store → ℕ → ℕ → ℕ → List ℕ
bytes_at m header k zero = []
bytes_at m header k (suc n) = u8_at m header k ∷ bytes_at m header (k + 1) n

-- A text written over the start of another.
abbrev pub overwrite : List ℕ → List ℕ → List ℕ
overwrite [] old = old
overwrite (c ∷ s) [] = c ∷ s
overwrite (c ∷ s) (d ∷ old) = c ∷ overwrite s old

abbrev pub GetParam : Type 0
GetParam = ℕ → ℕ × ℕ × ℕ

-- The places of `fs_type` and `volume_label` in the header.
abbrev pub fs_type_at : ℕ
fs_type_at = 54

abbrev pub label_at : ℕ
label_at = 43

-- The disk and the machine. With a status other than 0 the parameters are not written.
unfoldable pub disk_create_fat12 : GetParam → ℕ → Disk → Machine → Disk × Machine
disk_create_fat12 get_param header disk m =
    let (status, tracks, heads) = get_param disk.id in
    let memory = poke m.memory (add32 header fs_type_at) 0 in
    if status == 0
    then (
      record disk {
        fs_type = FsType.fat12;
        info = record {
          bytes_per_sector = u16_at m.memory header 11;
          sector_per_cluster = u8_at m.memory header 13;
          reserved_sector_count = u16_at m.memory header 14;
          fat_count = u8_at m.memory header 16;
          max_root_entry_count = u16_at m.memory header 17;
          sector_count = u16_at m.memory header 19;
          sector_per_fat = u16_at m.memory header 22;
          sector_per_track = tracks;
          head_count = heads;
          boot_signature = u8_at m.memory header 38;
          volume_id = u32_at m.memory header 39;
          volume_label =
              overwrite (strcpy (bytes_at memory header label_at 12)) (disk.info).volume_label;
        };
      },
      record m { memory = memory },
    )
    else (record disk { fs_type = FsType.fat12 }, raise Error.invarg m)

-- The error for a status of the BIOS.
abbrev pub read_error : ℕ → Error
read_error status =
    if status == 0x40 || (status == 0x05 || (status == 0x10 || (status == 0x20 || status == 0xaa)))
    then Error.io
    else Error.internal

abbrev pub header_size : ℕ
header_size = 512

-- The size of `disk_t`.
abbrev pub disk_size : ℕ
disk_size = 44

-- The pointer to the disk and what is there, or `none` for `NULL`.
module _ (int13 : Int13) (get_param : GetParam) (buffer header : ℕ) (junk : Fat12Info) where
  -- What follows a successful read: the name of the file system up to its first space.
  unfoldable pub detect_fs : ℕ → ℕ → Machine → Option (ℕ × Disk) × Machine
  detect_fs p drive m =
      let name = bytes_at m.memory header fs_type_at (header_size - fs_type_at) in
      elim (strchr name b' ') [
        | none ↦ (none, free p (raise Error.unknfs m))
        | some i ↦
            let m' = record m { memory = poke m.memory (add32 header (fs_type_at + i)) 0 } in
            elim (strcmp (bytes_at m'.memory header fs_type_at (header_size - fs_type_at))
              (codes "FAT12")) [
                | same ↦
                    let (disk, m'') =
                      disk_create_fat12 get_param header
                        (record { id = drive; fs_type = FsType.unknown; info = junk }) m' in
                    (some (p, disk), m'')
                | below ↦ (none, free p (raise Error.unknfs m'))
                | above ↦ (none, free p (raise Error.unknfs m'))
              ]
      ]

  unfoldable pub disk_create : ℕ → Machine → Option (ℕ × Disk) × Machine
  disk_create drive m =
      let (p, m') = malloc disk_size m in
      if p == 0
      then (none, m')
      else (let (status, m'') = disk_read int13 buffer drive header 1 0 m' in
          if status == 0
          then detect_fs p drive m''
          else (none, free p (raise (read_error status) m'')))

  abbrev pub disk_open : ℕ → Machine → Option (ℕ × Disk) × Machine
  disk_open drive m = disk_create drive m

unfoldable pub disk_close : ℕ → Machine → Machine
disk_close disk m = if disk == 0 then raise Error.invarg m else free disk m
