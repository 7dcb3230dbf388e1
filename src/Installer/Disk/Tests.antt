-- ===== src/Installer/Disk/Tests.antt =====
-- A drive that reads without errors, and a read of 17 sectors from it.
use amethyst_os_old.Base.{
  ℕ, ◌+◌, ◌-◌, ◌*◌, ◌/◌, ◌%◌, ◌≡◌, refl, ap₂, arith, true, ◌&&◌, ltb, leb, if◌then◌else◌, replicate,
  get_or, codes, List, [], ◌∷◌, ◌++◌, some, ◌≢◌,
}
use amethyst_os_old.Kernel.Alloc as KernelAlloc
use amethyst_os_old.Kernel.Alloc.{empty_chunk}
use amethyst_os_old.Installer.Error.{Error}
use amethyst_os_old.Installer.Machine.{Machine}
use amethyst_os_old.Installer.Alloc.{malloc, alloc_init}
use amethyst_os_old.Installer.Disk.{Int13, Disk, Fat12Info, disk_read, sector_size, buffer_size}
use amethyst_os_old.Installer.Disk.Create.{GetParam, disk_create, disk_size}
use amethyst_os_old.Installer.Disk.Header.{IsHeader, Describes}
use amethyst_os_old.Installer.Disk.Opened.{disk_create_lem}
use amethyst_os_old.Installer.Disk.Read.{Serves, Loaded, disk_read_lem}

-- The number of a sector and the place in it give the byte.
abbrev numbered : ℕ → ℕ → ℕ
numbered s k = (s + k) % 256

abbrev drive : (ℕ → ℕ → ℕ) → Int13
drive sector d n ptr lba m = (
  0,
  λ a.
      if leb ptr a && ltb a (ptr + sector_size * n)
      then sector (lba + (a - ptr) / sector_size) ((a - ptr) % sector_size)
      else m a,
)

drive-Serves : (sector : ℕ → ℕ → ℕ) (d : ℕ) → Serves (drive sector) d sector
drive-Serves sector d = record {
  status = λ n ptr lba m few fits. refl;
  bytes = λ n ptr lba m k few fits lt.
      (let inside : (leb ptr (ptr + k) && ltb (ptr + k) (ptr + sector_size * n)) ≡ true =
          ground arith in
        rw inside (ap₂ sector (omega arith) (omega arith)));
  others = λ n ptr lba m a few fits away. ground arith;
}

abbrev blank : Machine
blank = record {
  heap = record { allocated = replicate 3 empty_chunk; freed = replicate 3 empty_chunk };
  memory = λ a. 0;
  err = Error.none_yet;
}

disk_read_lem_example :
    ((disk_read (drive numbered) 0x7000 0x80 0x10_0000 17 2 blank).0 ≡ 0)
    × Loaded
        (drive numbered)
        0x7000
        0x80
        numbered
        (drive-Serves numbered 0x80)
        0x10_0000
        2
        (omega arith)
        (omega arith)
        (omega arith)
        (sector_size * 17)
        (buffer_size * 3)
        blank.memory
        (disk_read (drive numbered) 0x7000 0x80 0x10_0000 17 2 blank).1.memory
disk_read_lem_example =
    disk_read_lem (drive numbered) 0x7000 0x80 numbered (drive-Serves numbered 0x80) 0x10_0000 2
      (omega arith) (omega arith) (omega arith) 17 blank (omega arith)

abbrev floppy : Fat12Info
floppy = record {
  bytes_per_sector = 512;
  sector_per_cluster = 1;
  reserved_sector_count = 1;
  fat_count = 2;
  max_root_entry_count = 224;
  sector_count = 2880;
  sector_per_fat = 9;
  sector_per_track = 18;
  head_count = 2;
  boot_signature = 0x29;
  volume_id = 0x1234_5678;
  volume_label = replicate 12 0;
}

-- The first sector of the floppy disk.
abbrev boot_sector : List ℕ
boot_sector =
    replicate 11 0
    ++ (0 ∷ 2 ∷ 1 ∷ 1 ∷ 0 ∷ 2 ∷ 224 ∷ 0 ∷ 0x40 ∷ 0xb ∷ 0xf0 ∷ 9 ∷ 0 ∷ [])
    ++ (replicate 14 0
        ++ (0x29 ∷ 0x78 ∷ 0x56 ∷ 0x34 ∷ 0x12 ∷ [])
        ++ (codes "AMETHYST   " ++ codes "FAT12   "))

abbrev boot_bytes : ℕ → ℕ → ℕ
boot_bytes s k = get_or boot_sector k 0

boot_bytes-IsHeader : IsHeader (boot_bytes 0) floppy (codes "AMETHYST   ")
boot_bytes-IsHeader = record {
  bytes_per_sector = (refl, refl);
  sector_per_cluster = refl;
  reserved = (refl, refl);
  fat_count = refl;
  roots = (refl, refl);
  sectors = (refl, refl);
  fat_size = (refl, refl);
  signature = refl;
  serial = ground arith;
  label_text = ground arith;
  label_length = refl;
  label_bytes = ground arith;
  fs_type = ground arith;
}

abbrev parameters : GetParam
parameters d = (0, 18, 2)

abbrev machine : Machine
machine = alloc_init 0x10_0000 0xf_ffff blank

has_room : (malloc disk_size machine).0 ≢ 0
unfolding malloc KernelAlloc.alloc_init KernelAlloc.remove_chunk_by_size KernelAlloc.insert_chunk
    KernelAlloc.shrink
has_room e = cc e

disk_create_lem_example :
    (disk : Disk) × ((disk_create (drive boot_bytes) parameters 0x7000 0x5000 floppy 0x80 machine).0
      ≡ some ((malloc disk_size machine).0, disk))
    × (disk.id ≡ 0x80)
    × Describes disk floppy (codes "AMETHYST   ") 0
disk_create_lem_example =
    disk_create_lem (drive boot_bytes) parameters 0x7000 0x5000 0x80 floppy floppy
      (codes "AMETHYST   ") boot_bytes machine (drive-Serves boot_bytes 0x80) refl
      boot_bytes-IsHeader (omega arith) has_room refl
