-- ===== src/Installer/Alloc/Tests.antt =====
-- Runs of the installer's allocator, and its theorems at the heap of start.c with tables of three
-- slots.
use amethyst_os_old.Base.{ℕ, ◌+◌, ◌≡◌, refl, some, List, [], ◌∷◌, arith, replicate}
use amethyst_os_old.Kernel.Alloc as KernelAlloc
use amethyst_os_old.Kernel.Alloc.{Chunk, Heap, empty_chunk}
use amethyst_os_old.Kernel.Alloc.Run.{alloc, release}
use amethyst_os_old.Kernel.Alloc.Live.{alloc_init-IsHeap}
use amethyst_os_old.Installer.Error.{Error}
use amethyst_os_old.Installer.Machine.{Machine}
use amethyst_os_old.Installer.Alloc.{
  alloc_init, malloc, merge_chunk, merge_remove_chunk, find_neighbour,
}
use amethyst_os_old.Installer.Alloc.Calls.{run, IsTidy, run-IsTidy_of_alloc_init, malloc-kernel}
use amethyst_os_old.Installer.Alloc.Outcome.{Outcome, malloc-Outcome}

abbrev heap_start : ℕ
heap_start = 0x100000

abbrev heap_size : ℕ
heap_size = 0xfffff

abbrev blank : Machine
blank = record {
  heap = record { allocated = replicate 3 empty_chunk; freed = replicate 3 empty_chunk };
  memory = λ a. 0;
  err = Error.none_yet;
}

-- One free chunk between two that touch it.
abbrev gap : List Chunk
gap = record { start = 16; size = 16 } ∷ record { start = 64; size = 16 } ∷ empty_chunk ∷ []

gap_closed :
    merge_chunk (record { start = 32; size = 32 }) gap
    ≡ some (empty_chunk ∷ record { start = 16; size = 64 } ∷ empty_chunk ∷ [])
unfolding merge_chunk merge_remove_chunk find_neighbour
gap_closed = refl

run-IsTidy_of_alloc_init_example :
    IsTidy heap_start
      (heap_start + heap_size)
      (run
        (alloc 16 ∷ alloc 32 ∷ release heap_start ∷ release (heap_start + 16) ∷ [])
        (alloc_init heap_start heap_size blank)).heap
run-IsTidy_of_alloc_init_example =
    run-IsTidy_of_alloc_init heap_start heap_size blank
      (alloc 16 ∷ alloc 32 ∷ release heap_start ∷ release (heap_start + 16) ∷ []) (omega arith)
      (omega arith) (omega arith) (omega arith)

malloc-Outcome_example :
    Outcome 0x20_0000
      (alloc_init heap_start heap_size blank)
      (malloc 0x20_0000 (alloc_init heap_start heap_size blank))
malloc-Outcome_example =
    malloc-Outcome heap_start (heap_start + heap_size) 0x20_0000
      (alloc_init heap_start heap_size blank) (omega arith) (omega arith)
      (alloc_init-IsHeap heap_start heap_size blank.heap (omega arith) (omega arith)
        (omega arith)).0

malloc-kernel_example :
    ((malloc 16 (alloc_init heap_start heap_size blank)).0
      ≡ (KernelAlloc.malloc 16 (alloc_init heap_start heap_size blank).heap).0)
    × ((malloc 16 (alloc_init heap_start heap_size blank)).1.heap
        ≡ (KernelAlloc.malloc 16 (alloc_init heap_start heap_size blank).heap).1)
malloc-kernel_example = malloc-kernel 16 (alloc_init heap_start heap_size blank)
