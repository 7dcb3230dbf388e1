-- ===== src/Kernel/Syscalls.antt =====
-- src/kernel/src/kernel/syscalls.c and syscalls.asm: the system calls.
pub mod Printed
mod Tests
use amethyst_os_old.Base.{ℕ, ◌%◌, ◌^◌, Option, none, some, List, [], ◌∷◌, get_elem?, codes}
use amethyst_os_old.Kernel.Console.{Console}
use amethyst_os_old.Kernel.Isr.{printf}

pub data Syscall : Type 0 where
  example1 example2 : Syscall

pub syscall_list : List Syscall
syscall_list = example1 ∷ example2 ∷ []

-- What the functions return is not set, and is not modelled. `none` is for what is undefined. `ebx` is
-- the register at the call, which `GET_EBX` reads: the code in front of it is assumed to leave it.
module _ (string_at : ℕ → List ℕ) where
  pub _example1 : Console → Option Console
  _example1 t = printf string_at (codes "Example 1 has been called!\n") [] t

  pub _example2 : ℕ → Console → Option Console
  _example2 ebx t =
      printf string_at (codes "Example 2 has been called and the argument is %d!\n") (ebx ∷ []) t

  -- The call through the table.
  pub call : Syscall → ℕ → Console → Option Console
  call example1 ebx t = _example1 t
  call example2 ebx t = _example2 ebx t

  -- `dispatch` takes the number of the call from the low half of EAX, and does not check it: past
  -- the end of the table it calls what the memory there holds.
  pub dispatch : ℕ → ℕ → Console → Option Console
  dispatch eax ebx t = elim (get_elem? syscall_list (eax % 2 ^ 16)) [
    | none ↦ none
    | some f ↦ call f ebx t
  ]
