-- ===== src/Installer/Alloc.antt =====
-- src/installer/src/std/allocator.c: the heap of the installer. Its tables, `insert_chunk`,
-- `remove_chunk_by_size`, `remove_chunk_by_address` and `alloc_init` are the kernel's, line by line;
-- merging goes on until a freed chunk has no neighbour, and failures set `_err`.
pub mod Merge
pub mod Coalesced
pub mod Gains
pub mod Calls
pub mod Outcome
pub mod Memory
mod Tests
use mathlib.Core.Option
use amethyst_os_old.Base.{
  ℕ, zero, suc, Option, none, some, List, [], ◌∷◌, ◌==◌, if◌then◌else◌, add32, set, get_or, length,
}
use amethyst_os_old.Kernel.Alloc as KernelAlloc
use amethyst_os_old.Kernel.Alloc.{
  Chunk, empty_chunk, insert_chunk, remove_chunk_by_size, remove_chunk_by_address,
}
use amethyst_os_old.Installer.Error.{Error}
use amethyst_os_old.Installer.Machine.{Machine, raise}

-- The loop that `merge_chunk` and `merge_remove_chunk` share: the first slot next to the chunk, and
-- what the two make together.
unfoldable pub find_neighbour : Chunk → List Chunk → Option (ℕ × Chunk)
find_neighbour c [] = none
find_neighbour c (x ∷ l) =
    if add32 x.start x.size == c.start
    then some (0, record x { size = add32 x.size c.size })
    else if add32 c.start c.size == x.start
    then some (0, record { start = c.start; size = add32 c.size x.size })
    else Option.map (λ r. (suc r.0, r.1)) (find_neighbour c l)

-- `pChunk` points to slot `k` of the table itself. Each round empties a slot, so the length of the
-- table is fuel enough.
unfoldable pub merge_remove_chunk : ℕ → ℕ → List Chunk → List Chunk
merge_remove_chunk zero k l = l
merge_remove_chunk (suc fuel) k l = elim (find_neighbour (get_or l k empty_chunk) l) [
  | none ↦ l
  | some (i, m) ↦ merge_remove_chunk fuel i (set (set l i m) k empty_chunk)
]

unfoldable pub merge_chunk : Chunk → List Chunk → Option (List Chunk)
merge_chunk c l = elim (find_neighbour c l) [
  | none ↦ none
  | some (i, m) ↦ some (merge_remove_chunk (length l) i (set l i m))
]

abbrev pub alloc_init : ℕ → ℕ → Machine → Machine
alloc_init start cap m = record m { heap = KernelAlloc.alloc_init start cap m.heap }

unfoldable pub free : ℕ → Machine → Machine
free ptr m =
    if ptr == 0 then raise Error.invarg m else elim (remove_chunk_by_address m.heap.allocated ptr) [
      | none ↦ raise Error.invarg m
      | some (c, allocated) ↦ elim (merge_chunk c m.heap.freed) [
        | some freed ↦ record m { heap = record { allocated = allocated; freed = freed } }
        | none ↦ elim (insert_chunk c m.heap.freed) [
          | some freed ↦ record m { heap = record { allocated = allocated; freed = freed } }
          | none ↦ record m {
            heap = record (m.heap) { allocated = allocated };
            err = Error.internal;
          }
        ]
      ]
    ]

unfoldable pub malloc : ℕ → Machine → ℕ × Machine
malloc size m =
    if size == 0 then (0, raise Error.invarg m) else elim (remove_chunk_by_size m.heap.freed size) [
      | none ↦ (0, raise Error.heapfull m)
      | some (c, freed) ↦ elim (insert_chunk c m.heap.allocated) [
        | none ↦ (0, record m { heap = record (m.heap) { freed = freed }; err = Error.internal })
        | some allocated ↦
            (c.start, record m { heap = record { allocated = allocated; freed = freed } })
      ]
    ]
