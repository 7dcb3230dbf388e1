-- ===== src/Installer/Start.antt =====
-- src/installer/src/start.c: `_start`, up to the endless loop that it ends in. `none` is a run that
-- does not come to an end within the fuel, or that is undefined.
pub mod Prepared
mod Tests
use mathlib.Core.Option
use amethyst_os_old.Base.{ℕ, ◌||◌, Option, none, some, List, [], ◌∷◌, ◌==◌, if◌then◌else◌, codes}
use amethyst_os_old.Kernel.Vga.{Store}
use amethyst_os_old.Kernel.Font.{Font}
use amethyst_os_old.Installer.Error.{Error}
use amethyst_os_old.Installer.Machine.{Machine, failed}
use amethyst_os_old.Installer.Alloc.{alloc_init, malloc, free}
use amethyst_os_old.Installer.Disk.{Disk, Int13, Fat12Info}
use amethyst_os_old.Installer.Disk.Create.{GetParam, disk_open, disk_close}
use amethyst_os_old.Installer.Fat12.Dir.{file_read}
use amethyst_os_old.Installer.Paging.{Page, Tables, paging_init}
use amethyst_os_old.Installer.Console.{System, machine, with_machine, set_font, printf}

-- `HEAP_START` and `HEAP_SIZE`
abbrev pub heap_start : ℕ
heap_start = 0x10_0000

abbrev pub heap_size : ℕ
heap_size = 0xf_ffff

-- The value of an error code.
abbrev pub error_code : Error → ℕ
error_code Error.none_yet = 0
error_code Error.internal = 1
error_code Error.invarg = 2
error_code Error.heapfull = 3
error_code Error.nofont = 4
error_code Error.io = 5
error_code Error.unknfs = 6
error_code Error.notfound = 7
error_code Error.notadir = 8
error_code Error.notafile = 9

-- The calls in front of `disk_open`: the console, the page tables, the heap.
unfoldable pub prepare : ℕ → Page → Font → Tables × System → Tables × System
prepare kernel empty font (t, s) =
    let s' = set_font (some font) s in
    (paging_init kernel empty t, with_machine (alloc_init heap_start heap_size (machine s')) s')

-- `string_at` is the string at an address of a memory, and `text_of` the address of the text of an
-- error: the linker places the texts. `junk` is what memory holds at a disk before it is filled in,
-- and `stray` the value of the pointer that `fat12_file_read` does not initialise.
module _ (string_at : Store → ℕ → List ℕ) (text_of : Error → ℕ) (int13 : Int13)
    (get_param : GetParam) (buffer header : ℕ) (junk : Fat12Info) (stray : ℕ) where
  abbrev print : List ℕ → List ℕ → System → Option System
  print fmt args s = printf (string_at (s.text).memory) fmt args s

  -- The test of the heap behind the label `nodisk`.
  unfoldable pub memory_test : System → Option System
  memory_test s =
      let (p, m) = malloc 1 (machine s) in
      let s' = with_machine m s in
      Option.map (λ t. with_machine (free p (machine t)) t)
        (if p == heap_start then some s' else print (codes "Heap error: %p\n") (p ∷ []) s')

  -- From the reading of the file to the label `nodisk`.
  unfoldable pub show_file : ℕ → ℕ → Disk → System → Option System
  show_file fuel p disk s =
      elim (file_read int13 buffer fuel disk (codes "/test/test/file.txt") stray (machine s)) [
        | none ↦ none
        | some (file, m) ↦
            let s' = with_machine m s in
            Option.map (λ t. with_machine (disk_close p (machine t)) t)
              (if file == 0
                then print (codes "Err %d - %s: Fail to read the file `/test/test/file.txt`\n")
                    (error_code s'.err ∷ text_of s'.err ∷ []) s'
                else Option.map (λ t. with_machine (free file (machine t)) t)
                    (print (codes "CONTENT:\n%s\n") (file ∷ []) s'))
      ]

  -- The call of `disk_open`, and what follows it.
  unfoldable pub run_disk : ℕ → ℕ → System → Option System
  run_disk fuel drive s =
      let (opened, m) = disk_open int13 get_param buffer header junk drive (machine s) in
      let s' = with_machine m s in
      let report =
        print (codes "Err %d - %s: Fail to load the drive %d:\n")
          (error_code s'.err ∷ text_of s'.err ∷ drive ∷ []) s' in
      elim opened [
        | none ↦ report
        | some (p, disk) ↦ if failed m then report else show_file fuel p disk s'
      ]

  unfoldable pub start : ℕ → ℕ → Page → Font → ℕ → Tables × System → Option (Tables × System)
  start fuel kernel empty font drive s =
      let (t, s') = prepare kernel empty font s in
      elim (run_disk fuel drive s') [
        | none ↦ none
        | some s'' ↦ Option.map (λ r. (t, r)) (memory_test s'')
      ]
