-- ===== src/Kernel/Run/Tests.antt =====
-- A kernel that has started, at its first system call.
mod Linked
use amethyst_os_old.Kernel.Run.Tests.Linked.{address}
use amethyst_os_old.Base.{ℕ, ◌<◌, List, [], ◌∷◌}
use amethyst_os_old.Kernel.Vga.{Store}
use amethyst_os_old.Kernel.Idt.{Isr, Idt}
use amethyst_os_old.Kernel.Alloc.{Chunk, Heap}
use amethyst_os_old.Kernel.Pci.{Device, Devices}
use amethyst_os_old.Kernel.Start.{Kernel}
use amethyst_os_old.Kernel.Start.Boot.{set_up}
use amethyst_os_old.Kernel.Run.{Interrupt}

abbrev black : Store
black a = 0

abbrev no_gates : Idt
no_gates = record {
  entry = λ v. record { addr_low = 0; segment = 0; reserved = 0; attributs = 0; addr_high = 0 };
  limit = 0;
}

abbrev one_slot : List Chunk
one_slot = record { start = 0; size = 0 } ∷ []

abbrev no_heap : Heap
no_heap = record { allocated = one_slot; freed = one_slot }

abbrev no_devices : Devices
no_devices = record { count = 0; entry = λ i. 0 }

abbrev blank : Device
blank = record {
  zero_bits = 0;
  field = 0;
  function = 0;
  slot = 0;
  bus = 0;
  reserved = 0;
  enable = 0;
}

-- No device answers.
abbrev machine : ℕ → ℕ
machine a = 0xffff_ffff

abbrev no_strings : ℕ → List ℕ
no_strings p = []

abbrev started : Kernel
started = set_up address 0x1_0018 0x3_0000 machine blank black [] no_gates no_heap no_devices

-- System call 1 with the argument -5; the upper half of EAX holds something else.
abbrev second_call : Interrupt
second_call = record { vector = 0xaa; eax = 0xcafe_0001; ebx = 0xffff_fffb }

-- A page fault after it, and a breakpoint that is never served.
abbrev page_fault : Interrupt
page_fault = record { vector = 14; eax = 0; ebx = 0 }

abbrev breakpoint : Interrupt
breakpoint = record { vector = 3; eax = 0; ebx = 0 }
