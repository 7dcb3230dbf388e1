-- ===== src/Installer/Disk/Opened.antt =====
-- What opening a disk gives, from the call of the BIOS to the fields of the disk.
use amethyst_os_old.Base.{
  ℕ, ◌+◌, ◌*◌, ◌<◌, ◌≡◌, ◌≢◌, refl, ap, ap₂, ◌∙◌, true, false, some, List, arith, ◌==◌, ltb, add32,
  to_u16, length, get_or,
}
use amethyst_os_old.Installer.Machine.{Machine}
use amethyst_os_old.Installer.Alloc.{malloc}
use amethyst_os_old.Installer.Disk.{Fat12Info, Disk, Int13, disk_read}
use amethyst_os_old.Installer.Disk.Read.{Serves}
use amethyst_os_old.Installer.Disk.Header.{IsHeader, Describes, detect_fs-Describes}
use amethyst_os_old.Installer.Disk.Create.{GetParam, detect_fs, disk_create, disk_size}

-- A disk opens as its header says: take a drive that reads without errors and gives its parameters,
-- whose first sector is a FAT12 header, a place for the header below 0xfff0, and a heap with room for
-- a disk. `disk_create` returns the pointer to a disk with the numbers of the header. Its label is
-- the 11 bytes of the header's, and then what memory held before: no zero is written behind them.
pub disk_create_lem :
    (int13 : Int13) (get_param : GetParam) (buffer header drive : ℕ) (junk info : Fat12Info)
    (label : List ℕ) (sector : ℕ → ℕ → ℕ) (m : Machine)
    → Serves int13 drive sector
    → (get_param drive).0 ≡ 0
    → IsHeader (sector 0) info label
    → header + 512 < 0xfff0
    → (malloc disk_size m).0 ≢ 0
    → length junk.volume_label ≡ 12
    → (disk : Disk) × ((disk_create int13 get_param buffer header junk drive m).0
        ≡ some ((malloc disk_size m).0, disk))
      × (disk.id ≡ drive)
      × Describes disk info label (get_or junk.volume_label 11 0)
unfolding disk_create disk_read
disk_create_lem int13 get_param buffer header drive junk info label sector m serves ok h low room
      size =
    let p = (malloc disk_size m).0 in
    let m' = (malloc disk_size m).1 in
    let is_room : (p == 0) ≡ false = ground arith in
    let near : ltb (add32 header (1 * 512)) 0xfff0 ≡ true = ground arith in
    let there : to_u16 header ≡ header = omega arith in
    let read = (int13 drive 1 header 0 m'.memory).1 in
    let done : (int13 drive 1 header 0 m'.memory).0 ≡ 0 =
      serves.status 1 header 0 m'.memory (omega arith) (omega arith) in
    let (disk, found, same_id, d) =
      detect_fs-Describes get_param header (sector 0) info label h (omega arith) int13 buffer junk p
        drive (record m' { memory = read }) ok
        (λ k lt.
          ap read (omega arith)
          ∙ serves.bytes 1 header 0 m'.memory k (omega arith) (omega arith) (omega arith)
          ∙ ap₂ sector (omega arith) (omega arith))
        size in
    let run : (disk_create int13 get_param buffer header junk drive m).0
        ≡ (detect_fs int13 get_param buffer header junk p drive (record m' { memory = read })).0 =
      rw (is_room, near, there, done, disk_create) refl in
    (disk, run ∙ found, same_id, d)
