-- ===== src/Installer/Dir.antt =====
-- src/installer/src/sys/disk/dir.c: `dir_open`, which chooses the file system and prints a message for
-- one that it does not know.
use mathlib.Core.Option
use amethyst_os_old.Base.{
  ℕ, Option, none, some, List, [], ◌∷◌, ◌==◌, ◌≡◌, ◌≢◌, if◌then◌else◌, codes, refl, arith, false,
}
use amethyst_os_old.Libc.Strings.{isdigit}
use amethyst_os_old.Libc.Number.{
  number, number_text, layout, sign_part, prefix, tmp_digits, digit_loop, digit, reverse_onto,
  drain,
}
use amethyst_os_old.Libc.Directive.{
  read_flags, read_width, read_precision, read_qualifier, is_flag, skip_atoi,
}
use amethyst_os_old.Libc.Format.{
  vsprintf, format_loop, directive, switch, with_arg, convert, integer_case, takes_arg, narrow,
}
use amethyst_os_old.Installer.Alloc.{malloc}
use amethyst_os_old.Installer.Disk.{Disk, FsType, Int13}
use amethyst_os_old.Installer.Fat12.Dir.{Dir, dir_size, fat12_dir_open}
use amethyst_os_old.Installer.Console.{System, machine, with_machine, puts, printf}

-- The value of `FS_UNKNOWN`.
abbrev fs_unknown : ℕ
fs_unknown = 0

module _ (string_at : ℕ → List ℕ) (int13 : Int13) (buffer : ℕ) where
  -- The pointer to the directory and what is there, or `none` for `NULL`.
  unfoldable pub dir_open :
      ℕ → Disk → Option (List ℕ) → ℕ → System → Option (Option (ℕ × Dir) × System)
  dir_open fuel disk dirname junk s =
      let (dir, m) = malloc dir_size (machine s) in
      let s' = with_machine m s in
      if dir == 0 then some (none, s') else elim disk.fs_type [
        | FsType.unknown ↦
            Option.map (λ t. (none, t))
              (printf string_at (codes "ERR: In dir_open, fs 0x%X is not supported\n")
                (fs_unknown ∷ []) s')
        | FsType.fat12 ↦
            Option.map (λ r. (Option.map (λ d. (dir, d)) r.0, with_machine r.1 s'))
              (fat12_dir_open int13 buffer fuel disk dir dirname junk m)
      ]

  unknown_text :
      vsprintf string_at (codes "ERR: In dir_open, fs 0x%X is not supported\n") (fs_unknown ∷ [])
      ≡ some (record {
        text = codes "ERR: In dir_open, fs 0x0 is not supported\n";
        args = [];
        stores = [];
      })
  unfolding vsprintf format_loop directive switch with_arg convert integer_case takes_arg narrow
      number number_text layout sign_part prefix tmp_digits digit_loop digit reverse_onto drain
      read_flags read_width read_precision read_qualifier is_flag isdigit skip_atoi
  unknown_text = refl

  -- On a disk with an unknown file system, if there is memory for the directory, `dir_open` prints its
  -- message and returns `NULL`. The block stays allocated, and the error code is as before.
  pub dir_open_unknown :
      (fuel : ℕ) (disk : Disk) (dirname : Option (List ℕ)) (junk : ℕ) (s : System)
      → disk.fs_type ≡ FsType.unknown
      → (malloc dir_size (machine s)).0 ≢ 0
      → dir_open fuel disk dirname junk s
        ≡ some (
          none,
          puts
              (codes "ERR: In dir_open, fs 0x0 is not supported\n")
              (with_machine (malloc dir_size (machine s)).1 s),
        )
  unfolding dir_open printf
  dir_open_unknown fuel disk dirname junk s kind made =
      let got : (malloc dir_size (machine s)).0 == 0 ≡ false = ground arith in
      rw (got, kind, unknown_text, dir_open, printf) refl
