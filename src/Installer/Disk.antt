-- ===== src/Installer/Disk.antt =====
-- src/installer/src/sys/disk/disk.c and src/installer/include/sys: a disk, and the reading of sectors.
-- `disk_read_int13` and `disk_get_param_int13` of disk.asm call the BIOS, and are parameters. So is
-- the address of the buffer in low memory, which the linker chooses.
pub mod Create
pub mod Header
pub mod Opened
pub mod Texts
pub mod Read
mod Tests
use amethyst_os_old.Base.{
  ℕ, ◌+◌, ◌*◌, ◌/◌, ◌%◌, ◌^◌, List, ◌==◌, ltb, if◌then◌else◌, for_to, add32, to_u16,
}
use amethyst_os_old.Kernel.Vga.{Store}
use amethyst_os_old.Installer.Machine.{Machine}
use amethyst_os_old.Installer.Strings.{memcpy}

-- `fs_type`
pub data FsType : Type 0 where
  unknown : FsType
  fat12 : FsType

-- `struct fs_fat12`
pub record Fat12Info : Type 0 where
  pub bytes_per_sector : ℕ
  pub sector_per_cluster : ℕ
  pub reserved_sector_count : ℕ
  pub fat_count : ℕ
  pub max_root_entry_count : ℕ
  pub sector_count : ℕ
  pub sector_per_fat : ℕ
  pub sector_per_track : ℕ
  pub head_count : ℕ
  pub boot_signature : ℕ
  pub volume_id : ℕ
  pub volume_label : List ℕ

-- `disk_t`
pub record Disk : Type 0 where
  pub id : ℕ
  pub fs_type : FsType
  pub info : Fat12Info

-- `DISK_SECTOR_SIZE`, `__BUFFER_SIZE` and `__BUFFER_PG_SIZE`
abbrev pub sector_size : ℕ
sector_size = 512

abbrev pub buffer_size : ℕ
buffer_size = 0x1000

abbrev pub buffer_sectors : ℕ
buffer_sectors = 8

-- The BIOS call: the drive, the number of sectors, the address in the first 64 KiB, the first sector,
-- and the memory. It returns a status and the memory.
abbrev pub Int13 : Type 0
Int13 = ℕ → ℕ → ℕ → ℕ → Store → ℕ × Store

module _ (int13 : Int13) (buffer : ℕ) where
  -- One round of the loop over the pages of the buffer. The sector goes on by 4.
  unfoldable pub read_page : ℕ → ℕ → ℕ → ℕ → Machine → Machine
  read_page drive ptr lba i m =
      let (status, memory) =
        int13 drive buffer_sectors (to_u16 buffer) ((lba + 4 * i) % 2 ^ 64) m.memory in
      (memcpy (add32 ptr (i * buffer_size)) buffer buffer_size (record m { memory = memory })).1

  -- What is left after the whole pages.
  unfoldable pub read_rest : ℕ → ℕ → ℕ → ℕ → Machine → ℕ × Machine
  read_rest drive ptr count lba m =
      let (status, memory) = int13 drive count (to_u16 buffer) (lba % 2 ^ 64) m.memory in
      let m' = record m { memory = memory } in
      if status == 0 then (0, (memcpy ptr buffer (count * buffer_size) m').1) else (status, m')

  -- The status and the machine. `count` is a `uint16_t`, and `lba` a `uint64_t`.
  unfoldable pub disk_read : ℕ → ℕ → ℕ → ℕ → Machine → ℕ × Machine
  disk_read drive ptr count lba m =
      if ltb (add32 ptr (count * sector_size)) 0xfff0
      then (let (status, memory) = int13 drive count (to_u16 ptr) lba m.memory in
          (status, record m { memory = memory }))
      else (let pages = count / buffer_sectors in
          read_rest drive (add32 ptr (pages * buffer_size)) (count % buffer_sectors)
            (lba + 4 * pages) (for_to pages (read_page drive ptr lba) m))
