-- ===== src/Installer/Fat12/Files/First.antt =====
-- What a file that was found is read as.
use amethyst_os_old.Base.{
  ℕ, ◌+◌, ◌*◌, ◌/◌, ◌%◌, ◌^◌, ◌≤◌, ◌<◌, ◌≡◌, ◌≢◌, refl, ap, ap₂, ◌∙◌, false, some, arith,
}
use amethyst_os_old.Installer.Machine.{Machine, failed}
use amethyst_os_old.Installer.Alloc.{malloc, free}
use amethyst_os_old.Installer.Alloc.Memory.{free-memory}
use amethyst_os_old.Installer.Disk.{Disk, Int13, buffer_size, disk_read}
use amethyst_os_old.Installer.Disk.Read.{Serves, disk_read_lem}
use amethyst_os_old.Installer.Fat12.{subdirectory, first_logical_cluster, cluster_to_lba}
use amethyst_os_old.Installer.Fat12.Files.{load_cluster, finish_file}
use amethyst_os_old.Installer.Fat12.Files.Chain.{Chain, read_entry_ends}

module _ (disk : Disk) where
  -- The block for a file of `n` clusters, and the machine after its allocation.
  abbrev pub file_block : ℕ → Machine → ℕ × Machine
  file_block n m = malloc (n * disk.info.sector_per_cluster * disk.info.bytes_per_sector % 2 ^ 32) m

  -- The block was given, above the buffer, and with room for what `disk_read` writes.
  pub record IsGiven (buffer : ℕ) (b : ℕ × Machine) : Type 0 where
    pub ok : failed b.1 ≡ false
    pub high : 2 ^ 16 ≤ b.0
    pub clear : buffer + 0x8000 ≤ b.0
    pub room :
        b.0 + buffer_size * (disk.info.sector_per_cluster / 8 + disk.info.sector_per_cluster % 8)
        < 2 ^ 32

  -- Byte `j` of a cluster on a drive with these sectors.
  abbrev pub cluster_byte : (ℕ → ℕ → ℕ) → ℕ → ℕ → ℕ
  cluster_byte sector start j = sector (cluster_to_lba disk.info start + j / 512) (j % 512)

module _ (int13 : Int13) (buffer : ℕ) (disk : Disk) (sector : ℕ → ℕ → ℕ)
    (serves : Serves int13 disk.id sector) (low : buffer + 0x1000 ≤ 2 ^ 16) where
  load_cluster_first :
      (start n : ℕ) (m : Machine)
      → IsGiven disk buffer (file_block disk n m)
      → disk.info.sector_per_cluster ≤ 8
      → (m' : Machine) × (load_cluster int13 buffer disk start n m ≡ ((file_block disk n m).0, m'))
        × ((j : ℕ)
            → j < 512 * disk.info.sector_per_cluster
            → m'.memory ((file_block disk n m).0 + j) ≡ cluster_byte disk sector start j)
  unfolding load_cluster cluster_to_lba
  load_cluster_first start n m g few =
      let (p, m') = file_block disk n m in
      let lba = cluster_to_lba disk.info start in
      let (status, loaded) =
        disk_read_lem int13 buffer disk.id sector serves p lba low g.high g.clear
          disk.info.sector_per_cluster m' g.room in
      (
        (disk_read int13 buffer disk.id p disk.info.sector_per_cluster lba m').1,
        rw (g.ok, status, load_cluster) refl,
        λ j lt. loaded.0 j lt ∙ ap₂ sector (omega arith) refl,
      )

  -- If the entry of a file was found, with no error, and the chain from its first cluster comes to its
  -- end mark after `n` clusters, fewer than the fuel, then on a drive that reads without errors and
  -- whose clusters have at most 8 sectors the file is read into a new block for `n` clusters, and the
  -- block holds the bytes of the first cluster.
  pub finish_file_first :
      (fuel fats entry junk n j : ℕ) (m : Machine)
      → fats ≢ 0
      → failed m ≡ false
      → subdirectory m.memory entry ≡ false
      → first_logical_cluster m.memory entry % 0x1000 < 0xff8
      → Chain disk.info m fats (first_logical_cluster m.memory entry % 0x1000) n
      → n < fuel
      → IsGiven disk buffer (file_block disk n m)
      → disk.info.sector_per_cluster ≤ 8
      → j < 512 * disk.info.sector_per_cluster
      → (m' : Machine) × (finish_file int13 buffer disk fuel fats entry junk m
          ≡ some ((file_block disk n m).0, m'))
        × (m'.memory ((file_block disk n m).0 + j)
            ≡ cluster_byte disk sector (first_logical_cluster m.memory entry % 0x1000) j)
  unfolding finish_file
  finish_file_first fuel fats entry junk n j m given ok file small chain enough g few lt =
      let start = first_logical_cluster m.memory entry % 0x1000 in
      let (m', load, bytes) = load_cluster_first start n m g few in
      let read =
        (read_entry_ends int13 buffer disk fuel fats start junk m
            (load_cluster int13 buffer disk start n m) given small).1
          (n, chain, enough, refl) in
      (
        free fats m',
        rw (ok, file, read, load, finish_file) refl,
        ap (λ s. s ((file_block disk n m).0 + j)) (free-memory fats m') ∙ bytes j lt,
      )
