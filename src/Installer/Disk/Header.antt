-- ===== src/Installer/Disk/Header.antt =====
-- The header that a FAT12 disk starts with, and the disk that is made of it.
use amethyst_os_old.Base.{
  ℕ, ◌+◌, ◌-◌, ◌*◌, ◌/◌, ◌%◌, ◌^◌, ◌≤◌, ◌<◌, ◌≡◌, ◌≢◌, refl, ap, ◌∙◌, some, List, [], ◌∷◌, ◌++◌,
  arith, add32, All, length, get_or, codes,
}
use amethyst_os_old.Kernel.Vga.{Store, poke}
use amethyst_os_old.Libc.Strings.{strcmp, same}
use amethyst_os_old.Installer.Machine.{Machine}
use amethyst_os_old.Installer.Strings.{strchr, strcpy}
use amethyst_os_old.Installer.Disk.{FsType, Fat12Info, Disk, Int13}
use amethyst_os_old.Installer.Disk.Texts.{
  Spells, strcpy_label, strchr_space, strcmp_text, overwrite_shorter, Spells-ext,
}
use amethyst_os_old.Installer.Disk.Create.{
  u8_at, bytes_at, overwrite, GetParam, disk_create_fat12, detect_fs, fs_type_at, label_at,
  header_size,
}

-- The bytes of a FAT12 header: its numbers, low byte first, the 11 bytes of the label, and the name
-- of the file system, filled up with spaces.
pub record IsHeader (f : ℕ → ℕ) (info : Fat12Info) (label : List ℕ) : Type 0 where
  pub bytes_per_sector : (f 11 ≡ info.bytes_per_sector % 256) × (f 12 ≡ info.bytes_per_sector / 256)
  pub sector_per_cluster : f 13 ≡ info.sector_per_cluster
  pub reserved :
      (f 14 ≡ info.reserved_sector_count % 256) × (f 15 ≡ info.reserved_sector_count / 256)
  pub fat_count : f 16 ≡ info.fat_count
  pub roots : (f 17 ≡ info.max_root_entry_count % 256) × (f 18 ≡ info.max_root_entry_count / 256)
  pub sectors : (f 19 ≡ info.sector_count % 256) × (f 20 ≡ info.sector_count / 256)
  pub fat_size : (f 22 ≡ info.sector_per_fat % 256) × (f 23 ≡ info.sector_per_fat / 256)
  pub signature : f 38 ≡ info.boot_signature
  pub serial :
      (f 39 ≡ info.volume_id % 256)
      × (f 40 ≡ info.volume_id / 0x100 % 256)
      × (f 41 ≡ info.volume_id / 0x1_0000 % 256)
      × (f 42 ≡ info.volume_id / 0x100_0000)
  pub label_text : Spells f label_at label
  pub label_length : length label ≡ 11
  pub label_bytes : All (λ c. c ≢ 0) label
  pub fs_type : Spells f fs_type_at (codes "FAT12   ")

-- The disk has the numbers of a header. Its label is that of the header, and what stood in the last
-- of its 12 bytes before.
pub record Describes (disk : Disk) (info : Fat12Info) (label : List ℕ) (last : ℕ) : Type 0 where
  pub kind : disk.fs_type ≡ FsType.fat12
  pub bytes_per_sector : (disk.info).bytes_per_sector ≡ info.bytes_per_sector
  pub sector_per_cluster : (disk.info).sector_per_cluster ≡ info.sector_per_cluster
  pub reserved : (disk.info).reserved_sector_count ≡ info.reserved_sector_count
  pub fat_count : (disk.info).fat_count ≡ info.fat_count
  pub roots : (disk.info).max_root_entry_count ≡ info.max_root_entry_count
  pub sectors : (disk.info).sector_count ≡ info.sector_count
  pub fat_size : (disk.info).sector_per_fat ≡ info.sector_per_fat
  pub signature : (disk.info).boot_signature ≡ info.boot_signature
  pub serial : (disk.info).volume_id ≡ info.volume_id
  pub name : (disk.info).volume_label ≡ label ++ (last ∷ [])

-- Byte `j` of a header does not change when another is written.
poke_other :
    (m : Store) (header i j v : ℕ)
    → header + 512 ≤ 2 ^ 32
    → i < 512
    → j < 512
    → i ≢ j
    → u8_at (poke m (add32 header i) v) header j ≡ u8_at m header j
poke_other m header i j v fits hi hj ne = ground arith

poke_same : (m : Store) (header i v : ℕ) → u8_at (poke m (add32 header i) v) header i ≡ v
poke_same m header i v = ground arith

low_high : (n : ℕ) → n % 256 + 256 * (n / 256) ≡ n
low_high n = omega arith

module _ (get_param : GetParam) (header : ℕ) (f : ℕ → ℕ) (info : Fat12Info) (label : List ℕ)
    (h : IsHeader f info label) (fits : header + 512 ≤ 2 ^ 32) where
  create_label :
      (m : Store) (old : List ℕ)
      → ((k : ℕ) → k < fs_type_at → u8_at m header k ≡ f k)
      → length old ≡ 12
      → overwrite (strcpy (bytes_at (poke m (add32 header fs_type_at) 0) header label_at 12)) old
        ≡ label ++ (get_or old 11 0 ∷ [])
  create_label m old at size =
      let cut = poke m (add32 header fs_type_at) 0 in
      let written =
        Spells-ext f (u8_at cut header) label_at label
          (λ j lo hi.
            poke_other m header fs_type_at j 0 fits (omega arith) (omega (arith, h.label_length))
              (omega (arith, h.label_length))
            ∙ at j (omega (arith, h.label_length)))
          h.label_text in
      let stop : u8_at cut header (label_at + length label) ≡ 0 =
        ap (u8_at cut header) (omega (arith, h.label_length)) ∙ poke_same m header fs_type_at 0 in
      let twelve : 12 ≡ length label + 1 = omega (arith, h.label_length) in
      let last : length label ≡ 11 = h.label_length in
      ap (λ n. overwrite (strcpy (bytes_at cut header label_at n)) old) twelve
      ∙ ap (λ s. overwrite s old)
          (strcpy_label cut header label_at label h.label_bytes written stop)
      ∙ overwrite_shorter label old (size ∙ twelve)
      ∙ ap (λ n. label ++ (get_or old n 0 ∷ [])) last

  create-id :
      (disk : Disk) (m : Machine) → (disk_create_fat12 get_param header disk m).0.id ≡ disk.id
  unfolding disk_create_fat12
  create-id disk m = ground arith

  create-Describes :
      (disk : Disk) (m : Machine)
      → (get_param disk.id).0 ≡ 0
      → ((k : ℕ) → k < fs_type_at → u8_at m.memory header k ≡ f k)
      → length (disk.info).volume_label ≡ 12
      → Describes
          (disk_create_fat12 get_param header disk m).0
          info
          label
          (get_or (disk.info).volume_label 11 0)
  unfolding disk_create_fat12
  create-Describes disk m ok at size = rw ok (record {
    kind = refl;
    bytes_per_sector = omega (arith, at 11 (omega arith), at 12 (omega arith), h.bytes_per_sector);
    sector_per_cluster = omega (arith, at 13 (omega arith), h.sector_per_cluster);
    reserved = omega (arith, at 14 (omega arith), at 15 (omega arith), h.reserved);
    fat_count = omega (arith, at 16 (omega arith), h.fat_count);
    roots = omega (arith, at 17 (omega arith), at 18 (omega arith), h.roots);
    sectors = omega (arith, at 19 (omega arith), at 20 (omega arith), h.sectors);
    fat_size = omega (arith, at 22 (omega arith), at 23 (omega arith), h.fat_size);
    signature = omega (arith, at 38 (omega arith), h.signature);
    serial = omega (
      arith,
      at 39 (omega arith),
      at 40 (omega arith),
      at 41 (omega arith),
      at 42 (omega arith),
      h.serial,
    );
    name = create_label m.memory (disk.info).volume_label at size;
  })

  -- The header is in memory: the name of its file system is found, and the disk is made of it.
  pub detect_fs-Describes :
      (int13 : Int13) (buffer : ℕ) (junk : Fat12Info) (p drive : ℕ) (m : Machine)
      → (get_param drive).0 ≡ 0
      → ((k : ℕ) → k < 512 → u8_at m.memory header k ≡ f k)
      → length junk.volume_label ≡ 12
      → (disk : Disk) × ((detect_fs int13 get_param buffer header junk p drive m).0
          ≡ some (p, disk))
        × (disk.id ≡ drive)
        × Describes disk info label (get_or junk.volume_label 11 0)
  unfolding detect_fs
  detect_fs-Describes int13 buffer junk p drive m ok at size =
      let name : List ℕ = codes "FAT12" in
      let cut = poke m.memory (add32 header 59) 0 in
      let kept : (j : ℕ) → j < 59 → u8_at cut header j ≡ f j = λ j lt.
        poke_other m.memory header 59 j 0 fits (omega arith) (omega arith) (omega arith)
        ∙ at j (omega arith) in
      let t = h.fs_type in
      let here : Spells f fs_type_at name = ground arith in
      let there : Spells (u8_at m.memory header) fs_type_at name =
        Spells-ext f (u8_at m.memory header) fs_type_at name (λ j lo hi. at j (omega arith)) here in
      let there' : Spells (u8_at cut header) fs_type_at name =
        Spells-ext f (u8_at cut header) fs_type_at name (λ j lo hi. kept j (omega arith)) here in
      let space : strchr (bytes_at m.memory header fs_type_at (header_size - fs_type_at)) b' '
          ≡ some 5 =
        strchr_space m.memory header fs_type_at 452 name (ground arith) there
          (at 59 (omega arith) ∙ t.1.1.1.1.1.0) in
      let found : strcmp (bytes_at cut header fs_type_at (header_size - fs_type_at)) (codes "FAT12")
          ≡ same =
        strcmp_text cut header fs_type_at 452 name (ground arith) there'
          (poke_same m.memory header 59 0) in
      let disk : Disk = record { id = drive; fs_type = FsType.unknown; info = junk } in
      let m' = record m { memory = cut } in
      let made = disk_create_fat12 get_param header disk m' in
      let run : detect_fs int13 get_param buffer header junk p drive m
          ≡ (some (p, made.0), made.1) =
        rw (space, found, detect_fs) refl in
      (
        made.0,
        ap (λ r. r.0) run,
        create-id disk m',
        create-Describes disk m' ok (λ k lt. kept k (omega arith)) size,
      )
