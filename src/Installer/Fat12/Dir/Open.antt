-- ===== src/Installer/Fat12/Dir/Open.antt =====
-- What opening a directory gives, once its entries are read.
use mathlib.Core.Path.{subst}
use amethyst_os_old.Base.{
  ℕ, suc, ◌+◌, ◌*◌, ◌%◌, ◌^◌, ◌≤◌, ◌<◌, ◌≡◌, refl, sym, ap, ◌∙◌, true, false, some, none, [], arith,
  length,
}
use amethyst_os_old.Kernel.Vga.Glyph.{IsMemory}
use amethyst_os_old.Installer.Error.{Error}
use amethyst_os_old.Installer.Machine.{Machine, raise, failed}
use amethyst_os_old.Installer.Alloc.Memory.{free-memory, malloc-memory}
use amethyst_os_old.Installer.Alloc.{malloc, free}
use amethyst_os_old.Installer.Disk.{Disk}
use amethyst_os_old.Installer.Fat12.{entry_size}
use amethyst_os_old.Installer.Fat12.Dir.{dir_entry_size, list_entries, count_loop}
use amethyst_os_old.Installer.Fat12.Dir.Shown.{shown, IsDirectory, IsListing, count_loop_lem}
use amethyst_os_old.Installer.Fat12.Dir.Listing.{HasRoom, copy_loop_lem}

-- The heap's calls leave the memory alone.
module _ (fuel k entries : ℕ) (disk : Disk) (m : Machine) (bytes : IsMemory m.memory)
    (fits : entries + entry_size * suc k ≤ 2 ^ 32) (directory : IsDirectory m.memory k entries)
    (enough : k < fuel) where
  -- The number of the entries that are shown, and the call of `malloc` for them.
  abbrev pub count : ℕ
  count = length (shown m.memory k entries)

  abbrev pub block : ℕ × Machine
  block = malloc (count * dir_entry_size % 2 ^ 32) m

  counted : count_loop fuel entries 0 m.memory ≡ some count
  counted =
      count_loop_lem k fuel entries 0 m.memory bytes fits directory enough ∙ ap some (omega arith)

  -- Take a directory of `k` entries in a memory of bytes, fuel for all of them, and a `malloc` that
  -- succeeds with a block that does not overlap the directory. Then the directory opens with that
  -- block, which holds the name and the type of each entry that is no volume label, in order.
  pub list_entries_lem :
      failed block.1 ≡ false
      → HasRoom k entries block.0 count
      → (m' : Machine) × (list_entries fuel entries disk m
          ≡ some (some (record { disk = disk; entries = block.0; entry_count = count }), m'))
        × IsListing m.memory m'.memory block.0 (shown m.memory k entries)
  unfolding list_entries
  list_entries_lem ok room =
      let same = malloc-memory (count * dir_entry_size % 2 ^ 32) m in
      let (m', run, done) =
        copy_loop_lem m.memory k fuel entries block.0 block.1 bytes directory
          (λ a lo hi. ap (λ f. f a) same) room enough in
      let go : list_entries fuel entries disk m
          ≡ some (
            some (record { disk = disk; entries = block.0; entry_count = count }),
            free entries m',
          ) =
        rw (counted, ok, run, list_entries) refl in
      (
        free entries m',
        go,
        subst (λ f. IsListing m.memory f block.0 (shown m.memory k entries))
            (sym (free-memory entries m')) done.0,
      )

  block_refused : shown m.memory k entries ≡ [] → block ≡ (0, raise Error.invarg m)
  unfolding malloc
  block_refused e = ap (λ l. malloc (length l * dir_entry_size % 2 ^ 32) m) e

  -- A directory that shows no entry does not open: it asks for a block of 0 bytes, and the error is an
  -- invalid argument. The entries that were read are not freed.
  pub list_entries_empty :
      shown m.memory k entries ≡ []
      → list_entries fuel entries disk m ≡ some (none, raise Error.invarg m)
  unfolding list_entries
  list_entries_empty e =
      let refused = block_refused e in
      let stop : failed block.1 ≡ true = ap (λ b. failed b.1) refused in
      let run : list_entries fuel entries disk m ≡ some (none, block.1) =
        rw (counted, stop, list_entries) refl in
      run ∙ ap (λ b. some (none, b.1)) refused
