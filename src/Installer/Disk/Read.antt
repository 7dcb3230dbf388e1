-- ===== src/Installer/Disk/Read.antt =====
-- Which bytes `disk_read` puts where, when it has to copy them out of the buffer in low memory.
use amethyst_os_old.Base.{
  ℕ, zero, suc, ◌+◌, ◌-◌, ◌*◌, ◌/◌, ◌%◌, ◌^◌, ◌≤◌, ◌<◌, ◌≡◌, ◌⊎◌, inl, inr, refl, false, ◌∙◌, ap,
  ap₂, arith, ltb, for_to, add32, to_u16, Bool-cases,
}
use amethyst_os_old.Kernel.Vga.{Store}
use amethyst_os_old.Installer.Machine.{Machine}
use amethyst_os_old.Installer.Strings.{memcpy}
use amethyst_os_old.Installer.Strings.Copy.{copied_at, copied_away, memcpy_lem}
use amethyst_os_old.Installer.Disk.{
  sector_size, buffer_size, buffer_sectors, Int13, read_page, read_rest, disk_read,
}

-- A drive that reads without errors: a call for at most 8 sectors into the first 64 KiB has status 0
-- and writes the bytes of the sectors, and no others. `sector s k` is byte `k` of sector `s`.
pub record Serves (int13 : Int13) (drive : ℕ) (sector : ℕ → ℕ → ℕ) : Type 0 where
  pub status :
      (n ptr lba : ℕ) (m : Store)
      → n ≤ 8
      → ptr + sector_size * n ≤ 2 ^ 16
      → (int13 drive n ptr lba m).0 ≡ 0
  pub bytes :
      (n ptr lba : ℕ) (m : Store) (k : ℕ)
      → n ≤ 8
      → ptr + sector_size * n ≤ 2 ^ 16
      → k < sector_size * n
      → (int13 drive n ptr lba m).1 (ptr + k) ≡ sector (lba + k / sector_size) (k % sector_size)
  pub others :
      (n ptr lba : ℕ) (m : Store) (a : ℕ)
      → n ≤ 8
      → ptr + sector_size * n ≤ 2 ^ 16
      → (a < ptr) ⊎ (ptr + sector_size * n ≤ a)
      → (int13 drive n ptr lba m).1 a ≡ m a

module _ (int13 : Int13) (buffer drive : ℕ) (sector : ℕ → ℕ → ℕ)
    (serves : Serves int13 drive sector) (ptr lba : ℕ) (low : buffer + 0x1000 ≤ 2 ^ 16)
    (high : 2 ^ 16 ≤ ptr) (clear : buffer + 0x8000 ≤ ptr) where
  -- What byte `j` of the destination becomes.
  abbrev pub content : ℕ → ℕ
  content j =
      sector ((lba + 4 * (j / buffer_size)) % 2 ^ 64 + j % buffer_size / sector_size)
        (j % sector_size)

  -- The first `n` bytes are there, and no byte has changed outside the buffer and the `w` bytes from
  -- `ptr` on.
  abbrev pub Loaded : ℕ → ℕ → Store → Store → Type 0
  Loaded n w m m' =
      ((j : ℕ) → j < n → m' (ptr + j) ≡ content j)
      × ((a : ℕ)
          → (a < buffer) ⊎ (buffer + buffer_size ≤ a)
          → (a < ptr) ⊎ (ptr + w ≤ a)
          → m' a ≡ m a)

  -- One read into the buffer and its copy to the place of page `i`.
  load_part :
      (i n lba' width : ℕ) (m₀ : Store) (m m' : Machine)
      → n ≤ 8
      → ptr + buffer_size * i + width ≤ 2 ^ 32
      → sector_size * n ≤ width
      → width ≤ 0x8000
      → lba' ≡ (lba + 4 * i) % 2 ^ 64
      → Loaded (buffer_size * i) (buffer_size * i) m₀ m.memory
      → m'.memory ≡ (int13 drive n buffer lba' m.memory).1
      → Loaded
          (buffer_size * i + sector_size * n)
          (buffer_size * i + width)
          m₀
          (memcpy (ptr + buffer_size * i) buffer width m').1.memory
  load_part i n lba' width m₀ m m' few fits wide narrow here old read =
      let copy =
        (memcpy_lem (ptr + buffer_size * i) buffer width m' (ground arith) fits (omega arith)
          (inl (omega arith))).1 in
      let same = copied_away (ptr + buffer_size * i) buffer width m'.memory in
      (
        λ j lt. copy (ptr + j) ∙ elim (Bool-cases (ltb j (buffer_size * i))) [
          | inl before ↦
              same (ptr + j) (inl (ground arith))
              ∙ ap (λ s. s (ptr + j)) read
              ∙ serves.others n buffer lba' m.memory (ptr + j) few (omega arith) (inr (omega arith))
              ∙ old.0 j (ground arith)
          | inr new ↦
              let k = j - buffer_size * i in
              copied_at (ptr + buffer_size * i) buffer width m'.memory (ptr + j) k (ground arith)
                (ground arith)
              ∙ ap (λ s. s (buffer + k)) read
              ∙ serves.bytes n buffer lba' m.memory k few (omega arith) (ground arith)
              ∙ ap₂ sector (ground arith) (ground arith)
        ],
        λ a away outside.
            copy a
            ∙ same a (ground arith)
            ∙ ap (λ s. s a) read
            ∙ serves.others n buffer lba' m.memory a few (omega arith) (ground arith)
            ∙ old.1 a away (ground arith),
      )

  pages-Loaded :
      (n : ℕ) (m : Machine)
      → ptr + buffer_size * n ≤ 2 ^ 32
      → Loaded
          (buffer_size * n)
          (buffer_size * n)
          m.memory
          (for_to n (read_page int13 buffer drive ptr lba) m).memory
  unfolding read_page memcpy
  pages-Loaded zero m fits = (λ j lt. absurd (omega arith), λ a away outside. refl)
  pages-Loaded (suc n) m fits =
      let old = pages-Loaded n m (omega arith) in
      let sofar = for_to n (read_page int13 buffer drive ptr lba) m in
      let at : add32 ptr (n * buffer_size) ≡ ptr + buffer_size * n = omega arith in
      let there : to_u16 buffer ≡ buffer = omega arith in
      let size : buffer_size * suc n ≡ buffer_size * n + sector_size * buffer_sectors =
        omega arith in
      rw (at, there, size)
        (load_part n buffer_sectors ((lba + 4 * n) % 2 ^ 64) buffer_size m.memory sofar _
          (omega arith) (omega arith) (omega arith) (omega arith) refl old refl)

  -- Into memory from 2 ^ 16 on, behind the buffer, `disk_read` from a drive that reads without errors
  -- returns 0, and byte `j` of the destination becomes byte `j % 512` of the sector
  -- `lba + 4 * (j / 4096) + j % 4096 / 512`: the sectors follow one another only in the first 4096
  -- bytes. It writes nowhere but in the buffer and in 4096 bytes for each whole page and for each
  -- sector left over.
  pub disk_read_lem :
      (count : ℕ) (m : Machine)
      → ptr + buffer_size * (count / buffer_sectors + count % buffer_sectors) < 2 ^ 32
      → ((disk_read int13 buffer drive ptr count lba m).0 ≡ 0)
        × Loaded
            (sector_size * count)
            (buffer_size * (count / buffer_sectors + count % buffer_sectors))
            m.memory
            (disk_read int13 buffer drive ptr count lba m).1.memory
  unfolding disk_read read_rest
  disk_read_lem count m fits =
      let pages = count / buffer_sectors in
      let left = count % buffer_sectors in
      let up : ltb (add32 ptr (count * sector_size)) 0xfff0 ≡ false = ground arith in
      let at : add32 ptr (pages * buffer_size) ≡ ptr + buffer_size * pages = omega arith in
      let there : to_u16 buffer ≡ buffer = omega arith in
      let sofar = for_to pages (read_page int13 buffer drive ptr lba) m in
      let ok =
        serves.status left buffer ((lba + 4 * pages) % 2 ^ 64) sofar.memory (omega arith)
          (omega arith) in
      let length : sector_size * count ≡ buffer_size * pages + sector_size * left = omega arith in
      let width : buffer_size * (pages + left) ≡ buffer_size * pages + left * buffer_size =
        omega arith in
      let old = pages-Loaded pages m (omega arith) in
      rw (up, at, there, ok, length, width)
        (
          refl,
          load_part pages left ((lba + 4 * pages) % 2 ^ 64) (left * buffer_size) m.memory sofar _
              (omega arith) (omega arith) (omega arith) (omega arith) refl old refl,
        )
