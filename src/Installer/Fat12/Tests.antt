-- ===== src/Installer/Fat12/Tests.antt =====
-- A directory of three entries in memory, a FAT, and the numbers of a floppy disk.
use mathlib.Core.Logic.{◌↔◌}
use amethyst_os_old.Base.{
  none, ℕ, zero, suc, ◌+◌, ◌-◌, ◌*◌, ◌%◌, ◌^◌, ◌≤◌, ◌<◌, ◌≡◌, inr, refl, false, some, List, ◌∷◌,
  ◌++◌, arith, ◌==◌, codes, get_or, length, replicate, leb, if◌then◌else◌,
}
use amethyst_os_old.Kernel.Alloc as KernelAlloc
use amethyst_os_old.Kernel.Alloc.{Heap, empty_chunk}
use amethyst_os_old.Kernel.Vga.{Store}
use amethyst_os_old.Kernel.Vga.Glyph.{IsMemory}
use amethyst_os_old.Libc.Strings.{strcmp, at_end, same}
use amethyst_os_old.Installer.Error.{Error}
use amethyst_os_old.Installer.Machine.{Machine, failed}
use amethyst_os_old.Installer.Alloc.{malloc, alloc_init}
use amethyst_os_old.Installer.Disk.{Disk, FsType, Fat12Info, Int13}
use amethyst_os_old.Installer.Fat12.{
  copy_part, clusterfilename_to_filename, next_cluster, cluster_to_lba,
}
use amethyst_os_old.Installer.Fat12.Cluster.{
  Agrees, fat_entry, low_byte, high_byte, first_data, IsInfo, next_cluster-eq_iff,
  cluster_to_lba_lem,
}
use amethyst_os_old.Installer.Fat12.Name.{spell, clusterfilename_to_filename_lem}
use amethyst_os_old.Installer.Fat12.Files.{find_entry, read_entry}
use amethyst_os_old.Installer.Fat12.Files.Search.{nth, Differs, find_entry_first}
use amethyst_os_old.Installer.Fat12.Files.Chain.{Chain, read_entry_decided}
use amethyst_os_old.Installer.Fat12.Dir.{list_entries, dir_entry_size}
use amethyst_os_old.Installer.Fat12.Dir.Shown.{shown, IsListing, IsDirectory}
use amethyst_os_old.Installer.Fat12.Dir.Listing.{HasRoom}
use amethyst_os_old.Installer.Fat12.Dir.Open.{list_entries_lem}

abbrev directory : ℕ
directory = 0x20_0000

abbrev rest_of_entry : List ℕ
rest_of_entry = replicate 20 0

-- A file, a volume label, a directory, and the end mark.
abbrev image : List ℕ
image =
    codes "README  TXT"
    ++ (0 ∷ rest_of_entry)
    ++ (codes "AMETHYST   " ++ (8 ∷ rest_of_entry) ++ (codes "SUB        " ++ (16 ∷ rest_of_entry)))

abbrev disk_memory : Store
disk_memory a = (if leb directory a then get_or image (a - directory) 0 else 0) % 256

disk_memory-IsMemory : IsMemory disk_memory
disk_memory-IsMemory a = omega arith

abbrev blank : Machine
blank = record {
  heap = record { allocated = replicate 3 empty_chunk; freed = replicate 3 empty_chunk };
  memory = disk_memory;
  err = Error.none_yet;
}

abbrev machine : Machine
machine = alloc_init 0x10_0000 0xf_ffff blank

abbrev floppy : Fat12Info
floppy = record {
  bytes_per_sector = 512;
  sector_per_cluster = 1;
  reserved_sector_count = 1;
  fat_count = 2;
  max_root_entry_count = 224;
  sector_count = 2880;
  sector_per_fat = 9;
  sector_per_track = 18;
  head_count = 2;
  boot_signature = 0x29;
  volume_id = 0x1234_5678;
  volume_label = replicate 12 0;
}

abbrev disk : Disk
disk = record { id = 0x80; fs_type = FsType.fat12; info = floppy }

next_cluster-eq_iff_example :
    (next_cluster floppy disk_memory directory 2 ≡ fat_entry disk_memory directory 2)
    ↔ Agrees 2 (low_byte disk_memory directory 2) (high_byte disk_memory directory 2)
next_cluster-eq_iff_example =
    next_cluster-eq_iff floppy disk_memory directory 2 disk_memory-IsMemory (omega arith)
      (omega arith)

floppy-IsInfo : IsInfo floppy
floppy-IsInfo = record {
  some_bytes = omega arith;
  bytes = omega arith;
  cluster = omega arith;
  reserved = omega arith;
  fats = omega arith;
  roots = omega arith;
  fat_size = omega arith;
}

cluster_to_lba_lem_example :
    (cluster_to_lba floppy 2 ≡ (2 - 2) * 1 + first_data floppy)
    × (cluster_to_lba floppy 2 + 1 ≤ cluster_to_lba floppy 5)
cluster_to_lba_lem_example =
    cluster_to_lba_lem floppy 2 5 floppy-IsInfo (omega arith) (omega arith) (omega arith)

clusterfilename_to_filename_lem_example :
    clusterfilename_to_filename disk_memory directory ≡ spell (codes "README") (codes "TXT")
clusterfilename_to_filename_lem_example =
    clusterfilename_to_filename_lem disk_memory directory (codes "README") (codes "TXT")
      (ground arith) (ground arith) (ground arith) (ground arith)

before_sub : (i : ℕ) → i < 2 → Differs disk_memory (codes "SUB") (nth directory i)
unfolding clusterfilename_to_filename copy_part strcmp at_end
before_sub zero lt = (λ e. cc e, λ e. cc e)
before_sub (suc zero) lt = (λ e. cc e, λ e. cc e)
before_sub (suc (suc i)) lt = absurd (omega arith)

sub_found : strcmp (clusterfilename_to_filename disk_memory (nth directory 2)) (codes "SUB") ≡ same
unfolding clusterfilename_to_filename copy_part strcmp at_end
sub_found = refl

find_entry_first_example :
    find_entry 3 directory (codes "SUB") machine ≡ some (nth directory 2, machine)
find_entry_first_example =
    find_entry_first 2 3 directory (codes "SUB") machine (nth directory 2, machine) (λ e. cc e)
      disk_memory-IsMemory refl before_sub (inr (λ e. cc e, sub_found, refl)) (omega arith)

-- A drive that reads nothing.
abbrev idle : Int13
idle d n ptr lba m = (0, m)

-- A FAT in which cluster 2 leads to itself.
abbrev with_cycle : Machine
with_cycle = record machine { memory = λ a. if a == 0x30_0003 then 2 else 0 }

read_entry_decided_example :
    (read_entry idle 0x7000 disk 5000 0x30_0000 2 0 with_cycle
      ≡ read_entry idle 0x7000 disk 0xff9 0x30_0000 2 0 with_cycle)
    × ((read_entry idle 0x7000 disk 5000 0x30_0000 2 0 with_cycle ≡ none)
        ↔ ¬ ((n : ℕ) × Chain floppy with_cycle 0x30_0000 2 n))
read_entry_decided_example =
    read_entry_decided idle 0x7000 disk 5000 0x30_0000 2 0 with_cycle (omega arith) (λ e. cc e)
      (omega arith)

abbrev names : List ℕ
names = shown disk_memory 3 directory

-- The block for two entries is the first one of the heap.
abbrev block : ℕ × Machine
block = malloc (length names * dir_entry_size % 2 ^ 32) machine

block_lem : (block.0 ≡ 0x10_0000) × (failed block.1 ≡ false)
unfolding malloc KernelAlloc.alloc_init KernelAlloc.remove_chunk_by_size KernelAlloc.insert_chunk
    KernelAlloc.shrink
block_lem = (refl, refl)

block-HasRoom : HasRoom 3 directory block.0 (length names)
block-HasRoom = record {
  given = λ e. cc e;
  given_to = ground (arith, block_lem);
  fits = omega arith;
  fits_to = ground (arith, block_lem);
  apart = ground (arith, block_lem);
}

directory-IsDirectory : IsDirectory disk_memory 3 directory
directory-IsDirectory = (λ e. cc e, (λ e. cc e, (λ e. cc e, refl)))

list_entries_lem_example :
    (m' : Machine) × (list_entries 4 directory disk machine
      ≡ some (some (record { disk = disk; entries = block.0; entry_count = length names }), m'))
    × IsListing disk_memory m'.memory block.0 names
list_entries_lem_example =
    list_entries_lem 4 3 directory disk machine disk_memory-IsMemory (omega arith)
      directory-IsDirectory (omega arith) block_lem.1 block-HasRoom

-- A directory with nothing in it.
abbrev zeroed : Machine
zeroed = record machine { memory = λ a. 0 }
