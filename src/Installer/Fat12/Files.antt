-- ===== src/Installer/Fat12/Files.antt =====
-- src/installer/src/sys/disk/fs/fat12.c: the functions that search directories and read from the
-- disk. `none` is a run that does not come to an end within the fuel, or that is undefined.
pub mod Search
pub mod Chain
pub mod First
mod Tests
use mathlib.Core.Option
use amethyst_os_old.Base.{
  ℕ, zero, suc, ◌+◌, ◌-◌, ◌*◌, ◌/◌, ◌%◌, ◌^◌, Bool, true, false, ◌||◌, Option, none, some, List, [],
  ◌∷◌, ◌==◌, ltb, leb, if◌then◌else◌, add32, to_u16, length,
}
use amethyst_os_old.Libc.Strings.{strcmp, Cmp, same, below, above}
use amethyst_os_old.Libc.Stdlib.{char_to_int}
use amethyst_os_old.Installer.Error.{Error}
use amethyst_os_old.Installer.Machine.{Machine, raise, failed}
use amethyst_os_old.Installer.Alloc.{malloc, free}
use amethyst_os_old.Installer.Disk.{Disk, Fat12Info, Int13, disk_read}
use amethyst_os_old.Installer.Fat12.{
  entry_size, subdirectory, first_logical_cluster, clusterfilename_to_filename,
  regularfilename_to_filename, next_cluster, cluster_to_lba, filename_tokenize,
}

-- The loop of `fat12_find_entry`, from the entry at `dir` on. The result is the pointer that it
-- stores, 0 if it stores none. A first byte of 0xE5 is below 0 as a `char`.
unfoldable pub find_loop : ℕ → ℕ → List ℕ → Machine → Option (ℕ × Machine)
find_loop zero dir name m = none
find_loop (suc fuel) dir name m = elim (char_to_int (m.memory dir) == 0) [
  | true ↦ some (0, raise Error.notfound m)
  | false ↦ elim (char_to_int (m.memory dir) == 0xe5) [
    | true ↦ find_loop fuel (add32 dir entry_size) name m
    | false ↦ elim (failed m) [
      | true ↦ some (0, m)
      | false ↦ elim (strcmp (clusterfilename_to_filename m.memory dir) name) [
        | same ↦ some (dir, m)
        | below ↦ find_loop fuel (add32 dir entry_size) name m
        | above ↦ find_loop fuel (add32 dir entry_size) name m
      ]
    ]
  ]
]

unfoldable pub find_entry : ℕ → ℕ → List ℕ → Machine → Option (ℕ × Machine)
find_entry fuel dir name m =
    if dir == 0 then some (0, raise Error.invarg m) else find_loop fuel dir name m

-- The number of clusters that follow `cluster`, itself included, up to the end mark.
unfoldable pub chain_length : ℕ → Fat12Info → Machine → ℕ → ℕ → Option ℕ
chain_length zero info m fats cluster = none
chain_length (suc fuel) info m fats cluster = elim (ltb cluster 0xff8) [
  | false ↦ some 0
  | true ↦
      Option.map (λ n. n + 1)
        (chain_length fuel info m fats (next_cluster info m.memory fats cluster))
]

module _ (int13 : Int13) (buffer : ℕ) (disk : Disk) where
  -- The FATs, or 0.
  unfoldable pub read_fats : Machine → ℕ × Machine
  read_fats m =
      let info = disk.info in
      let sectors = info.sector_per_fat * info.fat_count in
      let (fats, m') = malloc (info.bytes_per_sector * sectors % 2 ^ 32) m in
      if fats == 0
      then (0, m')
      else (fats, (disk_read int13 buffer disk.id fats (to_u16 sectors) 1 m').1)

  -- The entries of the root directory. The number of its first sector is written out.
  unfoldable pub read_root_directory : Machine → ℕ × Machine
  read_root_directory m =
      let bytes = disk.info.bytes_per_sector in
      let size = 32 * disk.info.max_root_entry_count / bytes in
      let (p, m') = malloc (size * bytes % 2 ^ 32) m in
      if p == 0
      then (0, m')
      else (let m'' = (disk_read int13 buffer disk.id p (to_u16 size) 0x13 m').1 in
          if failed m'' then (p, free p m'') else (p, m''))

  -- What `fat12_read_entry` does once it knows the number of clusters. Its second loop ends in a
  -- `break` after the first cluster.
  unfoldable pub load_cluster : ℕ → ℕ → Machine → ℕ × Machine
  load_cluster start size m =
      let sectors = disk.info.sector_per_cluster in
      let (p, m') = malloc (size * sectors * disk.info.bytes_per_sector % 2 ^ 32) m in
      if failed m'
      then (p, m')
      else (let (status, m'') =
            disk_read int13 buffer disk.id p sectors (cluster_to_lba disk.info start) m' in
          if status == 0 then (p, m'') else (p, raise Error.io (free p m'')))

  -- The pointer that `*pOutput` holds afterwards; `old` is what it held before.
  unfoldable pub read_entry : ℕ → ℕ → ℕ → ℕ → Machine → Option (ℕ × Machine)
  read_entry fuel fats start old m =
      if fats == 0 || leb 0xff8 start
      then some (old, raise Error.invarg m)
      else elim (chain_length fuel disk.info m fats start) [
        | none ↦ none
        | some size ↦ some (load_cluster start size m)
      ]

  -- The loop over the parts of a path. Each round takes one; `entries` is the directory to look in.
  unfoldable pub path_loop : ℕ → ℕ → ℕ → ℕ → List ℕ → Machine → Option (ℕ × Machine)
  path_loop zero fuel fats entries current m = none
  path_loop (suc parts) fuel fats entries current m = elim (filename_tokenize current) [
    | none ↦ some (0, raise Error.invarg m)
    | some (name, next) ↦ elim (failed m) [
      | true ↦ some (0, m)
      | false ↦ elim (find_entry fuel entries name m) [
        | none ↦ none
        | some (it, m₁) ↦ elim (failed m₁) [
          | true ↦ some (0, free entries (raise Error.notfound m₁))
          | false ↦ elim next [
            | none ↦ some (it, free entries m₁)
            | some rest ↦ elim (subdirectory m₁.memory it) [
              | false ↦ some (0, free entries (raise Error.notadir m₁))
              | true ↦
                  elim (read_entry fuel fats (first_logical_cluster m₁.memory it % 0x1000) entries
                    (free entries m₁)) [
                      | none ↦ none
                      | some (entries', m₂) ↦ elim (failed m₂) [
                        | true ↦ some (0, m₂)
                        | false ↦ path_loop parts fuel fats entries' rest m₂
                      ]
                    ]
            ]
          ]
        ]
      ]
    ]
  ]

  abbrev pub skip_slash : List ℕ → List ℕ
  skip_slash [] = []
  skip_slash (c ∷ s) = if c == b'/' then s else c ∷ s

  -- The pointer to the entry of a file, 0 if there is none.
  unfoldable pub get_entry_of_filename : ℕ → ℕ → List ℕ → Machine → Option (ℕ × Machine)
  get_entry_of_filename fuel fats filename m =
      let current = skip_slash filename in
      let (entries, m') = read_root_directory m in
      if failed m'
      then some (0, m')
      else path_loop (length current + 1) fuel fats entries current m'

  -- The size of the buffers for names. A longer name runs over them, which is undefined.
  abbrev pub name_buffer : ℕ
  name_buffer = 512

  -- What is left of `fat12_read_directory` with the FATs and the entry.
  unfoldable pub finish_directory : ℕ → ℕ → ℕ → ℕ → Machine → Option (ℕ × Machine)
  finish_directory fuel fats entry old m =
      if failed m
      then some (old, m)
      else if subdirectory m.memory entry
      then Option.map (λ r. (r.0, free fats r.1))
          (read_entry fuel fats (first_logical_cluster m.memory entry % 0x1000) old m)
      else some (old, raise Error.notadir m)

  unfoldable pub read_directory : ℕ → List ℕ → ℕ → Machine → Option (ℕ × Machine)
  read_directory fuel dirname old m =
      let name = regularfilename_to_filename dirname in
      let (fats, m') = read_fats m in
      if leb name_buffer (length name)
      then none
      else if failed m'
      then some (old, m')
      else elim (get_entry_of_filename fuel fats name m') [
        | none ↦ none
        | some (entry, m'') ↦ finish_directory fuel fats entry old m''
      ]

  -- What is left of `fat12_file_read` with the FATs and the entry: the errors free the FATs.
  unfoldable pub finish_file : ℕ → ℕ → ℕ → ℕ → Machine → Option (ℕ × Machine)
  finish_file fuel fats entry junk m =
      if failed m || subdirectory m.memory entry
      then some (0, free fats m)
      else Option.map (λ r. (r.0, free fats r.1))
          (read_entry fuel fats (first_logical_cluster m.memory entry % 0x1000) junk m)

  -- `junk` is the value of the pointer `buffer`, which is not initialised.
  unfoldable pub fat12_file_read : ℕ → List ℕ → ℕ → Machine → Option (ℕ × Machine)
  fat12_file_read fuel filename junk m =
      let name = regularfilename_to_filename filename in
      let (fats, m') = read_fats m in
      if leb name_buffer (length name)
      then none
      else if failed m
      then some (0, m)
      else if failed m'
      then some (0, free fats m')
      else elim (get_entry_of_filename fuel fats name m') [
        | none ↦ none
        | some (entry, m'') ↦ finish_file fuel fats entry junk m''
      ]
