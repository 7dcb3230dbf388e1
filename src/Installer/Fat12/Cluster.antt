-- ===== src/Installer/Fat12/Cluster.antt =====
-- The number of the next cluster against the FAT12 format, and where a cluster lies on the disk.
use mathlib.Core.Logic.{◌↔◌}
use amethyst_os_old.Base.{
  ℕ, ◌+◌, ◌-◌, ◌*◌, ◌/◌, ◌%◌, ◌^◌, ◌≤◌, ◌<◌, ◌≡◌, ◌⊎◌, arith, ◌==◌, leb, ltb, if◌then◌else◌, add32,
  to_u16, ap, ◌∙◌,
}
use amethyst_os_old.Kernel.Vga.{Store}
use amethyst_os_old.Kernel.Vga.Glyph.{IsMemory}
use amethyst_os_old.Libc.Stdlib.{char_to_int}
use amethyst_os_old.Installer.Disk.{Fat12Info}
use amethyst_os_old.Installer.Fat12.{table_value, next_cluster, cluster_to_lba}

-- The two bytes of a FAT that hold the entry of a cluster, 12 bits to an entry.
abbrev pub low_byte : Store → ℕ → ℕ → ℕ
low_byte m fats cluster = m (fats + (cluster + cluster / 2))

abbrev pub high_byte : Store → ℕ → ℕ → ℕ
high_byte m fats cluster = m (fats + (cluster + cluster / 2) + 1)

-- The entry in the FAT12 format.
abbrev pub fat_entry : Store → ℕ → ℕ → ℕ
fat_entry m fats cluster =
    let word = low_byte m fats cluster + 256 * high_byte m fats cluster in
    if cluster % 2 == 1 then word / 16 else word % 0x1000

-- What `next_cluster` makes of one byte.
value_even : (b : ℕ) → b < 256 → char_to_int b % 0x1000 ≡ (if ltb b 128 then b else 0xf00 + b)
value_even b lt = ground arith

value_odd :
    (b : ℕ)
    → b < 256
    → to_u16 (char_to_int b / 16 + (if leb 0x8000_0000 (char_to_int b) then 0xf000_0000 else 0))
      ≡ (if ltb b 128 then b / 16 else 0xfff0 + b / 16)
value_odd b lt = ground arith

-- When the one byte that `next_cluster` reads gives the entry.
abbrev pub Agrees : ℕ → ℕ → ℕ → Type 0
Agrees cluster low high =
    (cluster % 2 ≡ 0) × (low < 128) × (high % 16 ≡ 0)
    ⊎ (cluster % 2 ≡ 0) × (128 ≤ low) × (high % 16 ≡ 15)
    ⊎ (cluster % 2 ≡ 1) × (low < 128) × (high ≡ 0)

decode_iff :
    (cluster low high : ℕ)
    → low < 256
    → high < 256
    → ((if cluster % 2 == 1
          then to_u16 (
              char_to_int low / 16 + (if leb 0x8000_0000 (char_to_int low) then 0xf000_0000 else 0))
          else char_to_int low % 0x1000)
        ≡ (if cluster % 2 == 1 then (low + 256 * high) / 16 else (low + 256 * high) % 0x1000))
      ↔ Agrees cluster low high
decode_iff cluster low high lo hi =
    rw (value_odd low lo, value_even low lo) (λ e. ground arith, λ g. ground arith)

mod_small : (a b : ℕ) → a < b → a % b ≡ a
mod_small a b lt = grind arith

table_value_lem :
    (info : Fat12Info) (m : Store) (fats cluster : ℕ)
    → cluster + cluster / 2 + 1 < info.bytes_per_sector
    → fats + info.bytes_per_sector ≤ 2 ^ 32
    → table_value info m fats cluster ≡ char_to_int (low_byte m fats cluster)
table_value_lem info m fats cluster near fits =
    let at : (cluster + cluster / 2) % info.bytes_per_sector ≡ cluster + cluster / 2 =
      mod_small (cluster + cluster / 2) info.bytes_per_sector (omega arith) in
    let place : add32 fats (cluster + cluster / 2) ≡ fats + (cluster + cluster / 2) = omega arith in
    ap (λ a. char_to_int (m a)) (ap (add32 fats) at ∙ place)

-- For a cluster whose entry lies in the first sector of a FAT in a memory of bytes, `next_cluster`
-- returns the entry of the FAT12 format exactly in three cases: an even cluster with an entry below
-- 128, an even one with an entry from 0xf80 on, and an odd one with an entry below 8.
pub next_cluster-eq_iff :
    (info : Fat12Info) (m : Store) (fats cluster : ℕ)
    → IsMemory m
    → cluster + cluster / 2 + 1 < info.bytes_per_sector
    → fats + info.bytes_per_sector ≤ 2 ^ 32
    → (next_cluster info m fats cluster ≡ fat_entry m fats cluster)
      ↔ Agrees cluster (low_byte m fats cluster) (high_byte m fats cluster)
unfolding next_cluster
next_cluster-eq_iff info m fats cluster bytes near fits =
    rw (table_value_lem info m fats cluster near fits, next_cluster)
      (decode_iff cluster (low_byte m fats cluster) (high_byte m fats cluster) (bytes _) (bytes _))

-- Where the first data sector lies, after the reserved sectors, the FATs and the root directory.
abbrev pub first_data : Fat12Info → ℕ
first_data info =
    info.reserved_sector_count
    + info.fat_count * info.sector_per_fat
    + (info.max_root_entry_count * 32 + (info.bytes_per_sector - 1)) / info.bytes_per_sector

-- The numbers of a disk are in range: the types of the fields give the bounds.
pub record IsInfo (info : Fat12Info) : Type 0 where
  pub some_bytes : 0 < info.bytes_per_sector
  pub bytes : info.bytes_per_sector < 2 ^ 16
  pub cluster : info.sector_per_cluster < 2 ^ 8
  pub reserved : info.reserved_sector_count < 2 ^ 16
  pub fats : info.fat_count < 2 ^ 8
  pub roots : info.max_root_entry_count < 2 ^ 16
  pub fat_size : info.sector_per_fat < 2 ^ 16

mul_bound : (a b c d : ℕ) → a ≤ c → b ≤ d → a * b ≤ c * d
mul_bound a b c d h k = grind arith

div_bound : (a b : ℕ) → 0 < b → a / b ≤ a
div_bound a b pos = grind arith

wrap_mul : (a b : ℕ) → (a + 2 ^ 32) * b ≡ a * b + 2 ^ 32 * b
wrap_mul a b = grind arith

first_data_bound : (info : Fat12Info) → IsInfo info → first_data info < 2 ^ 25
first_data_bound info v = omega (
  arith,
  v,
  mul_bound info.fat_count info.sector_per_fat 255 65535 (omega (arith, v)) (omega (arith, v)),
  div_bound (info.max_root_entry_count * 32 + (info.bytes_per_sector - 1)) info.bytes_per_sector
      v.some_bytes,
)

-- No step of the arithmetic wraps round for a cluster from 2 to 0xff7.
cluster_to_lba_exact :
    (info : Fat12Info) (cluster : ℕ)
    → IsInfo info
    → 2 ≤ cluster
    → cluster < 0xff8
    → cluster_to_lba info cluster ≡ (cluster - 2) * info.sector_per_cluster + first_data info
unfolding cluster_to_lba
cluster_to_lba_exact info cluster v lo hi =
    let shift : cluster + 2 ^ 32 - 2 ≡ cluster - 2 + 2 ^ 32 = omega arith in
    rw (shift, wrap_mul)
      (omega (
        arith,
        first_data_bound info v,
        mul_bound (cluster - 2) info.sector_per_cluster 0xff8 255 (omega arith) (omega (arith, v)),
        v,
      ))

next_range : (a b k : ℕ) → a < b → a * k + k ≤ b * k
next_range a b k lt = grind arith

-- The sectors of the clusters from 2 to 0xff7 follow one another behind the reserved sectors, the
-- FATs and the root directory, for numbers of a disk in the range of their types: each cluster starts
-- where the format says, and ends before the next one starts.
pub cluster_to_lba_lem :
    (info : Fat12Info) (cluster later : ℕ)
    → IsInfo info
    → 2 ≤ cluster
    → cluster < later
    → later < 0xff8
    → (cluster_to_lba info cluster ≡ (cluster - 2) * info.sector_per_cluster + first_data info)
      × (cluster_to_lba info cluster + info.sector_per_cluster ≤ cluster_to_lba info later)
cluster_to_lba_lem info cluster later v lo lt hi = (
  cluster_to_lba_exact info cluster v lo (omega arith),
  omega (
    arith,
    cluster_to_lba_exact info cluster v lo (omega arith),
    cluster_to_lba_exact info later v (omega arith) hi,
    next_range (cluster - 2) (later - 2) info.sector_per_cluster (omega arith),
  ),
)
