-- ===== src/Installer/Fat12/Files/Tests.antt =====
-- A file of one cluster on a floppy disk.
use amethyst_os_old.Kernel.Alloc as KernelAlloc
use amethyst_os_old.Base.{
  ℕ, zero, ◌+◌, ◌-◌, ◌*◌, ◌/◌, ◌%◌, ◌≡◌, refl, ap₂, ◌&&◌, true, false, some, arith, leb, ltb, ◌==◌,
  if◌then◌else◌, replicate,
}
use amethyst_os_old.Kernel.Alloc.{empty_chunk}
use amethyst_os_old.Installer.Error.{Error}
use amethyst_os_old.Installer.Machine.{Machine}
use amethyst_os_old.Installer.Alloc.{malloc, alloc_init}
use amethyst_os_old.Installer.Disk.{Disk, FsType, Fat12Info, Int13, sector_size}
use amethyst_os_old.Installer.Disk.Read.{Serves}
use amethyst_os_old.Installer.Fat12.{subdirectory, next_cluster}
use amethyst_os_old.Installer.Fat12.Files.{finish_file}
use amethyst_os_old.Installer.Fat12.Files.Chain.{Chain, ends, link}
use amethyst_os_old.Installer.Fat12.Files.First.{
  IsGiven, file_block, cluster_byte, finish_file_first,
}

-- The number of the sector and the place in it give the byte.
abbrev numbered : ℕ → ℕ → ℕ
numbered s k = (s + k) % 256

abbrev drive : Int13
drive d n ptr lba m = (
  0,
  λ a.
      if leb ptr a && ltb a (ptr + sector_size * n)
      then numbered (lba + (a - ptr) / sector_size) ((a - ptr) % sector_size)
      else m a,
)

drive-Serves : Serves drive 0x80 numbered
drive-Serves = record {
  status = λ n ptr lba m few fits. refl;
  bytes = λ n ptr lba m k few fits lt.
      (let inside : (leb ptr (ptr + k) && ltb (ptr + k) (ptr + sector_size * n)) ≡ true =
          ground arith in
        rw inside (ap₂ numbered (omega arith) (omega arith)));
  others = λ n ptr lba m a few fits away. ground arith;
}

abbrev floppy : Fat12Info
floppy = record {
  bytes_per_sector = 512;
  sector_per_cluster = 1;
  reserved_sector_count = 1;
  fat_count = 2;
  max_root_entry_count = 224;
  sector_count = 2880;
  sector_per_fat = 9;
  sector_per_track = 18;
  head_count = 2;
  boot_signature = 0x29;
  volume_id = 0x1234_5678;
  volume_label = replicate 12 0;
}

abbrev disk : Disk
disk = record { id = 0x80; fs_type = FsType.fat12; info = floppy }

-- A FAT at 0x300000 that ends the chain at cluster 2, and an entry of a file there.
abbrev machine : Machine
machine = alloc_init 0x10_0000 0xf_ffff (record {
  heap = record { allocated = replicate 3 empty_chunk; freed = replicate 3 empty_chunk };
  memory = λ a.
      if a == 0x30_0003
      then 0xf8
      else if a == 0x30_0004
      then 0x0f
      else if a == 0x20_001a
      then 2
      else 0;
  err = Error.none_yet;
})

abbrev block : ℕ × Machine
block = file_block disk 1 machine

block-IsGiven : IsGiven disk 0x7000 block
unfolding malloc KernelAlloc.alloc_init KernelAlloc.remove_chunk_by_size KernelAlloc.insert_chunk
    KernelAlloc.shrink
block-IsGiven = record { ok = refl; high = omega arith; clear = omega arith; room = omega arith }

chain : Chain floppy machine 0x30_0000 2 1
unfolding next_cluster
chain = link 2 zero (omega arith) (ends _ (omega arith))

plain_file : subdirectory machine.memory 0x20_0000 ≡ false
plain_file = refl

finish_file_first_example :
    (m' : Machine) × (finish_file drive 0x7000 disk 2 0x30_0000 0x20_0000 0 machine
      ≡ some (block.0, m'))
    × (m'.memory (block.0 + 300) ≡ cluster_byte disk numbered 2 300)
finish_file_first_example =
    finish_file_first drive 0x7000 disk numbered drive-Serves (omega arith) 2 0x30_0000 0x20_0000 0
      1 300 machine (λ e. cc e) refl plain_file (omega arith) chain (omega arith) block-IsGiven
      (omega arith) (omega arith)
