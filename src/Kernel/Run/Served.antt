-- ===== src/Kernel/Run/Served.antt =====
-- What a booted kernel prints for the interrupts that come, and which of them is the last.
use amethyst_os_old.Base.{
  ℕ, ◌%◌, ◌^◌, ◌<◌, ◌≡◌, Option, some, List, [], ◌∷◌, ◌++◌, ◌==◌, if◌then◌else◌,
}
use amethyst_os_old.Kernel.Console.{puts}
use amethyst_os_old.Kernel.Idt.{Isr}
use amethyst_os_old.Kernel.Isr.Report.{reported}
use amethyst_os_old.Kernel.Pci.{Device}
use amethyst_os_old.Kernel.Syscalls.Printed.{example1_text, example2_text}
use amethyst_os_old.Kernel.Start.{Kernel}
use amethyst_os_old.Kernel.Start.Boot.{IsBooted}
use amethyst_os_old.Kernel.Run.{Code, handler, system_calls, Interrupt}

-- The interrupt is one of the two system calls.
pub record IsCall (i : Interrupt) : Type 0 where
  pub vector : i.vector ≡ 0xaa
  pub few : i.eax % 2 ^ 16 < 2
  pub word : i.ebx < 2 ^ 32

-- What a system call prints, and what several do.
abbrev pub call_text : Interrupt → List ℕ
call_text i = if i.eax % 2 ^ 16 == 0 then example1_text else example2_text i.ebx

abbrev pub transcript : List Interrupt → List ℕ
transcript [] = []
transcript (i ∷ l) = call_text i ++ transcript l

-- The linker has put each handler and `dispatch` at its address.
pub record IsLinked (code_at : ℕ → Option Code) (address : Isr → ℕ) (dispatch_address : ℕ)
    : Type 0 where
  pub handlers : (isr : Isr) → code_at (address isr) ≡ some (handler isr)
  pub calls : code_at dispatch_address ≡ some system_calls

-- The kernel when a text is printed, and when a handler has reported.
abbrev pub after_text : List ℕ → Kernel → Kernel
after_text s k = record k { console = puts s k.console }

abbrev pub after_report : Isr → Kernel → Kernel
after_report isr k = record k { console = reported isr k.console }

module _ (string_at : ℕ → List ℕ) (code_at : ℕ → Option Code) (address : Isr → ℕ)
    (dispatch_address font_address : ℕ) (config : ℕ → ℕ) (junk : Device)
    (l : IsLinked code_at address dispatch_address) where
  abbrev IsKernel : Kernel → Type 0
  IsKernel = IsBooted address dispatch_address font_address config junk
