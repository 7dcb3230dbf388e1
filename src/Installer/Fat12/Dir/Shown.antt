-- ===== src/Installer/Fat12/Dir/Shown.antt =====
-- Which entries of a directory a listing shows, and how many.
use amethyst_os_old.Base.{
  ℕ, zero, suc, ◌+◌, ◌*◌, ◌^◌, ◌≤◌, ◌<◌, ◌≡◌, ◌≢◌, inl, inr, ap, ◌∙◌, false, some, List, [], ◌∷◌,
  arith, ◌==◌, if◌then◌else◌, add32, length, Bool-cases,
}
use amethyst_os_old.Kernel.Vga.{Store}
use amethyst_os_old.Kernel.Vga.Glyph.{IsMemory}
use amethyst_os_old.Libc.Stdlib.{char_to_int}
use amethyst_os_old.Installer.Fat12.{clusterfilename_to_filename, volume_label, entry_size}
use amethyst_os_old.Installer.Fat12.Dir.{entry_type, dir_entry_size, count_loop}
use amethyst_os_old.Installer.Fat12.Dir.Written.{length-filename}
use amethyst_os_old.Installer.Fat12.Dir.Entry.{IsEntry, IsEntry-ext}

-- The addresses of the entries that a listing shows, of the first `k` of a directory: all that are
-- no volume label.
abbrev pub shown : Store → ℕ → ℕ → List ℕ
shown m zero dir = []
shown m (suc k) dir =
    let later = shown m k (dir + entry_size) in if volume_label m dir then later else dir ∷ later

-- The directory has `k` entries, and behind them one that starts with a zero byte.
abbrev pub IsDirectory : Store → ℕ → ℕ → Type 0
IsDirectory m zero dir = m dir ≡ 0
IsDirectory m (suc k) dir = (m dir ≢ 0) × IsDirectory m k (dir + entry_size)

-- At a place stand the names and the types of entries, one after another.
abbrev pub IsListing : Store → Store → ℕ → List ℕ → Type 0
IsListing m₀ m to [] = Unit
IsListing m₀ m to (e ∷ l) =
    IsEntry m to (entry_type m₀ e) (clusterfilename_to_filename m₀ e)
    × IsListing m₀ m (to + dir_entry_size) l

pub in_use : (b : ℕ) → b < 256 → b ≢ 0 → (char_to_int b == 0) ≡ false
in_use b lt nz = ground arith

pub not_deleted : (b : ℕ) → b < 256 → (char_to_int b == 0xe5) ≡ false
not_deleted b lt = ground arith

pub count_loop_lem :
    (k fuel dir count : ℕ) (m : Store)
    → IsMemory m
    → dir + entry_size * suc k ≤ 2 ^ 32
    → IsDirectory m k dir
    → k < fuel
    → count_loop fuel dir count m ≡ some (count + length (shown m k dir))
unfolding count_loop
count_loop_lem k zero dir count m bytes fits d lt = absurd (omega arith)
count_loop_lem zero (suc fuel) dir count m bytes fits d lt =
    rw (d, count_loop) (ap some (omega arith))
count_loop_lem (suc k) (suc fuel) dir count m bytes fits d lt =
    let next : add32 dir entry_size ≡ dir + entry_size = omega arith in
    let ih : (n : ℕ)
        → count_loop fuel (dir + entry_size) n m
          ≡ some (n + length (shown m k (dir + entry_size))) =
      λ n. count_loop_lem k fuel (dir + entry_size) n m bytes (omega arith) d.1 (omega arith) in
    rw (in_use (m dir) (bytes dir) d.0, not_deleted (m dir) (bytes dir), count_loop)
      (elim (Bool-cases (volume_label m dir)) [
        | inl label ↦ rw (label, next) (ih count)
        | inr plain ↦ rw (plain, next) (ih (count + 1) ∙ ap some (omega arith))
      ])

pub IsListing-ext :
    (m₀ m m' : Store) (to : ℕ) (l : List ℕ)
    → ((a : ℕ) → to ≤ a → a < to + dir_entry_size * length l → m' a ≡ m a)
    → IsListing m₀ m to l
    → IsListing m₀ m' to l
IsListing-ext m₀ m m' to [] e h = tt
IsListing-ext m₀ m m' to (x ∷ l) e h = (
  IsEntry-ext m m' to (entry_type m₀ x) (clusterfilename_to_filename m₀ x) (length-filename m₀ x)
      (λ a lo hi. e a lo (omega arith)) h.0,
  IsListing-ext m₀ m m' (to + dir_entry_size) l (λ a lo hi. e a (omega arith) (omega arith)) h.1,
)
