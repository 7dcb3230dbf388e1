-- ===== src/Kernel/Alloc/Tests.antt =====
-- Runs of the allocator, and its theorems at the kernel's heap (start.c) with tables of three slots.
use mathlib.Core.Logic.{◌↔◌}
use amethyst_os_old.Base.{
  ℕ, ◌+◌, ◌≡◌, ◌⊎◌, ◌≤◌, refl, some, List, [], ◌∷◌, arith, replicate, get_elem?,
}
use amethyst_os_old.Kernel.Alloc.{
  Chunk, Heap, empty_chunk, alloc_init, malloc, free, insert_chunk, merge_chunk, merge_scan, shrink,
  remove_chunk_by_size, remove_chunk_by_address,
}
use amethyst_os_old.Kernel.Alloc.Cover.{covers, IsBlock}
use amethyst_os_old.Kernel.Alloc.Facts.{IsHeap}
use amethyst_os_old.Kernel.Alloc.Fits.{IsFull, Lacks}
use amethyst_os_old.Kernel.Alloc.Tiles.{malloc-IsHeap, free-IsHeap, malloc-Allocates, Allocates}
use amethyst_os_old.Kernel.Alloc.Live.{
  malloc-eq-null, free_block, Releases, free-malloc, Same, alloc_init-IsHeap,
}
use amethyst_os_old.Kernel.Alloc.Run.{
  Call, run, run_disjoint, alloc, release, malloc_leak, free_bytes,
}

abbrev heap_start : ℕ
heap_start = 0x1000000

abbrev heap_size : ℕ
heap_size = 0x1000000

abbrev heap_end : ℕ
heap_end = 0x2000000

abbrev blank : Heap
blank = record { allocated = replicate 3 empty_chunk; freed = replicate 3 empty_chunk }

abbrev booted : Heap
booted = alloc_init heap_start heap_size blank

booted-IsHeap : IsHeap heap_start heap_end booted
booted-IsHeap =
    (alloc_init-IsHeap heap_start heap_size blank (omega arith) (omega arith) (omega arith)).0

first_malloc : (malloc 16 booted).0 ≡ heap_start
unfolding malloc alloc_init remove_chunk_by_size insert_chunk shrink
first_malloc = refl

abbrev one_live : Heap
one_live = (malloc 16 booted).1

one_live-IsHeap : IsHeap heap_start heap_end one_live
one_live-IsHeap =
    malloc-IsHeap heap_start heap_end (omega arith) (omega arith) 16 booted booted-IsHeap

abbrev block : Chunk
block = record { start = heap_start; size = 16 }

block_live : get_elem? one_live.allocated 0 ≡ some block
unfolding malloc alloc_init remove_chunk_by_size insert_chunk shrink
block_live = refl

freed_room : ¬ IsFull one_live.freed
unfolding malloc alloc_init remove_chunk_by_size insert_chunk shrink
freed_room f = ground arith

-- Three one-byte blocks fill the table.
abbrev crowded : Heap
crowded = (malloc 1 (malloc 1 (malloc 1 booted).1).1).1

crowded-IsHeap : IsHeap heap_start heap_end crowded
crowded-IsHeap =
    step (malloc 1 (malloc 1 booted).1).1 (step (malloc 1 booted).1 (step booted booted-IsHeap))
  where
    step : (h : Heap) → IsHeap heap_start heap_end h → IsHeap heap_start heap_end (malloc 1 h).1
    step = malloc-IsHeap heap_start heap_end (omega arith) (omega arith) 1

crowded-IsFull : IsFull crowded.allocated
unfolding malloc alloc_init remove_chunk_by_size insert_chunk shrink
crowded-IsFull = omega arith

crowded_fits : ¬ Lacks 16 crowded.freed
unfolding malloc alloc_init remove_chunk_by_size insert_chunk shrink
crowded_fits f = omega arith

abbrev script : List Call
script = alloc 16 ∷ alloc 32 ∷ release heap_start ∷ alloc 8 ∷ []

script_first :
    get_elem? (run script booted).allocated 0 ≡ some (record { start = heap_start + 48; size = 8 })
unfolding run malloc free alloc_init remove_chunk_by_size insert_chunk shrink
    remove_chunk_by_address merge_chunk merge_scan
script_first = refl

script_second :
    get_elem? (run script booted).allocated 1 ≡ some (record { start = heap_start + 16; size = 32 })
unfolding run malloc free alloc_init remove_chunk_by_size insert_chunk shrink
    remove_chunk_by_address merge_chunk merge_scan
script_second = refl

-- `free` joins a block to one neighbour only: freed in the order of their allocation, two blocks
-- leave the region in two parts, and the whole of it can no longer be allocated.
fragmented :
    (malloc heap_size
      (run (alloc 16 ∷ alloc 32 ∷ release heap_start ∷ release (heap_start + 16) ∷ []) booted)).0
    ≡ 0
unfolding run malloc free alloc_init remove_chunk_by_size insert_chunk shrink
    remove_chunk_by_address merge_chunk merge_scan
fragmented = refl

malloc-IsHeap_example : IsHeap heap_start heap_end (malloc 16 booted).1
malloc-IsHeap_example =
    malloc-IsHeap heap_start heap_end (omega arith) (omega arith) 16 booted booted-IsHeap

free-IsHeap_example : IsHeap heap_start heap_end (free heap_start one_live)
free-IsHeap_example =
    free-IsHeap heap_start heap_end (omega arith) (omega arith) heap_start one_live one_live-IsHeap

malloc-Allocates_example : Allocates heap_start heap_end 16 booted (malloc 16 booted)
malloc-Allocates_example =
    malloc-Allocates heap_start heap_end (omega arith) (omega arith) 16 booted booted-IsHeap
      (omega (arith, first_malloc))

malloc-eq-null_example :
    ((malloc 16 crowded).0 ≡ 0)
    ↔ ((◌≡◌ {A = ℕ} 16 0) ⊎ Lacks 16 crowded.freed ⊎ IsFull crowded.allocated)
malloc-eq-null_example =
    malloc-eq-null heap_start heap_end (omega arith) (omega arith) 16 crowded crowded-IsHeap

free_block_example : Releases block one_live (free heap_start one_live)
free_block_example =
    free_block heap_start heap_end (omega arith) (omega arith) 0 block one_live one_live-IsHeap
      block_live (omega arith) freed_room

free-malloc_example : Same booted (free (malloc 16 booted).0 (malloc 16 booted).1)
free-malloc_example =
    free-malloc heap_start heap_end (omega arith) (omega arith) 16 booted booted-IsHeap
      (omega (arith, first_malloc))

malloc_leak_example :
    ((malloc 16 crowded).0 ≡ 0)
    × ((malloc 16 crowded).1.allocated ≡ crowded.allocated)
    × (free_bytes (malloc 16 crowded).1.freed + 16 ≡ free_bytes crowded.freed)
malloc_leak_example =
    malloc_leak heap_start heap_end (omega arith) (omega arith) 16 crowded crowded-IsHeap
      (omega arith) crowded-IsFull crowded_fits

run_disjoint_example :
    IsBlock heap_start heap_end (record { start = heap_start + 48; size = 8 })
    × ((a : ℕ)
        → covers (record { start = heap_start + 48; size = 8 }) a
            + covers (record { start = heap_start + 16; size = 32 }) a
          ≤ 1)
run_disjoint_example =
    run_disjoint heap_start heap_size blank script 0 1
      (record { start = heap_start + 48; size = 8 }) (record { start = heap_start + 16; size = 32 })
      (omega arith) (omega arith) (omega arith) (omega arith) (omega arith) script_first
      script_second (omega arith)
