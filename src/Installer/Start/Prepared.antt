-- ===== src/Installer/Start/Prepared.antt =====
-- The state of the installer when it opens the disk.
use amethyst_os_old.Base.{ℕ, ◌+◌, ◌%◌, ◌^◌, ◌<◌, ◌≡◌, some}
use amethyst_os_old.Kernel.Font.{Font}
use amethyst_os_old.Kernel.Console as KernelConsole
use amethyst_os_old.Installer.Alloc.Calls.{IsTidy}
use amethyst_os_old.Installer.Paging.{Tables}
use amethyst_os_old.Installer.Paging.Translate.{translate}
use amethyst_os_old.Installer.Console.{System}
use amethyst_os_old.Installer.Start.{heap_start, heap_size}

-- Every address is mapped to itself modulo 4 MiB, the heap is valid and has no neighbours among its
-- free blocks, and the console has a font.
pub record IsPrepared (kernel : ℕ) (font : Font) (r : Tables × System) : Type 0 where
  pub mapped : (v : ℕ) → v < 2 ^ 32 → translate kernel r.0 v ≡ some (v % 0x40_0000)
  pub tidy : IsTidy heap_start (heap_start + heap_size) (r.1).heap
  pub font_set : ((r.1).text).font ≡ some font
