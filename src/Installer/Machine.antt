-- ===== src/Installer/Machine.antt =====
-- What the installer's functions share: the heap's tables, the memory, and `_err`. In the program the
-- tables lie in memory too; a write through a pointer that reaches them is not seen in `heap`.
use amethyst_os_old.Base.{Bool, true, false}
use amethyst_os_old.Kernel.Vga.{Store}
use amethyst_os_old.Kernel.Alloc.{Heap}
use amethyst_os_old.Installer.Error.{Error}

pub record Machine : Type 0 where
  pub heap : Heap
  pub memory : Store
  pub err : Error

-- `_err = e`
abbrev pub raise : Error → Machine → Machine
raise e m = record m { err = e }

-- `_err != _ERR_NO`
abbrev pub failed : Machine → Bool
failed m = elim m.err [ Error.none_yet ↦ false | _ ↦ true ]
