-- ===== src/Kernel/Run.antt =====
-- The kernel after its start: src/kernel/src/start.c waits in a loop, and what runs are the exception
-- handlers of isr.c and the system calls of syscalls.asm, through the gates of idt.c.
pub mod Served
mod Tests
use mathlib.Core.Option
use amethyst_os_old.Base.{ℕ, Option, none, some, List, [], ◌∷◌}
use amethyst_os_old.Kernel.Idt.{Isr}
use amethyst_os_old.Kernel.Idt.Gates.{target}
use amethyst_os_old.Kernel.Isr.{Exit, handle}
use amethyst_os_old.Kernel.Syscalls.{dispatch}
use amethyst_os_old.Kernel.Start.{Kernel}

-- The code that a gate can lead to.
pub data Code : Type 0 where
  handler : Isr → Code
  system_calls : Code

-- An interrupt: its vector, and the registers at that time.
pub record Interrupt : Type 0 where
  pub vector : ℕ
  pub eax : ℕ
  pub ebx : ℕ

-- What was interrupted goes on, or an exception handler has called `halt` or `return_interrupt`, and
-- what was interrupted does not go on.
pub data Outcome : Type 0 where
  resumed : Kernel → Outcome
  ended : Kernel → Exit → Outcome

module _ (string_at : ℕ → List ℕ) where
  -- The code that an interrupt runs. `dispatch` returns with an `iret` of its own, behind as many pops
  -- as pushes; what it leaves in the registers is not modelled.
  pub execute : Code → Interrupt → Kernel → Option Outcome
  execute (handler isr) i k =
      Option.map (λ r. ended (record k { console = r.0 }) r.1) (handle string_at isr k.console)
  execute system_calls i k =
      Option.map (λ t. resumed (record k { console = t }))
        (dispatch string_at i.eax i.ebx k.console)

-- `code_at` says what the linker has put at an address.
module _ (string_at : ℕ → List ℕ) (code_at : ℕ → Option Code) where
  -- The processor goes through the gate of the vector.
  pub interrupt : Interrupt → Kernel → Option Outcome
  interrupt i k = elim (code_at (target (k.idt.entry i.vector))) [
    | none ↦ none
    | some code ↦ execute string_at code i k
  ]

  -- Interrupts one after another, as long as what they interrupt goes on.
  pub serve : List Interrupt → Kernel → Option Outcome
  serve [] k = some (resumed k)
  serve (i ∷ l) k = elim (interrupt i k) [
    | none ↦ none
    | some (ended k' exit) ↦ some (ended k' exit)
    | some (resumed k') ↦ serve l k'
  ]
