-- ===== src/Kernel/Alloc.antt =====
-- src/kernel/src/libc/allocator.c: the heap's two tables of chunks, and first-fit `malloc` and `free`.
-- A table is the list of its slots; a loop over `i` is recursion on the list. A function that
-- returns 0 leaves its table alone, and is `none`; one that returns 1 is `some` of what it wrote.
pub mod Cover
pub mod Facts
pub mod Fits
pub mod Init
pub mod Rules
pub mod Run
mod Tests
pub mod Tiles
pub mod Live
use mathlib.Core.Option
use amethyst_os_old.Base.{
  ℕ, ◌-◌, ◌&&◌, Option, none, some, List, [], ◌∷◌, map, ◌==◌, leb, if◌then◌else◌, add32, set,
}

-- `_chunk_t`
pub record Chunk : Type 0 where
  pub start : ℕ
  pub size : ℕ

-- `CHUNK_QTY`
abbrev pub chunk_qty : ℕ
chunk_qty = 0x4000

-- `allocated` and `freed`
pub record Heap : Type 0 where
  pub allocated : List Chunk
  pub freed : List Chunk

abbrev pub empty_chunk : Chunk
empty_chunk = record { start = 0; size = 0 }

unfoldable pub insert_chunk : Chunk → List Chunk → Option (List Chunk)
insert_chunk c [] = none
insert_chunk c (x ∷ list) =
    if x.start == 0 && x.size == 0
    then some (c ∷ list)
    else Option.map (λ l. x ∷ l) (insert_chunk c list)

-- The loop of `merge_chunk`.
pub merge_scan : Chunk → List Chunk → Option (List Chunk)
merge_scan c [] = none
merge_scan c (x ∷ list) =
    if add32 x.start x.size == c.start
    then some (record x { size = add32 x.size c.size } ∷ list)
    else if add32 c.start c.size == x.start
    then some (record { start = c.start; size = add32 c.size x.size } ∷ list)
    else Option.map (λ l. x ∷ l) (merge_scan c list)

pub merge_chunk : Chunk → List Chunk → Option (List Chunk)
merge_chunk c list = elim (merge_scan c list) [ some l ↦ some l | none ↦ insert_chunk c list ]

-- What `remove_chunk_by_size` leaves in the slot that it takes `size` bytes from.
unfoldable pub shrink : Chunk → ℕ → Chunk
shrink x size =
    if x.size - size == 0
    then empty_chunk
    else record { start = add32 x.start size; size = x.size - size }

unfoldable pub remove_chunk_by_size : List Chunk → ℕ → Option (Chunk × List Chunk)
remove_chunk_by_size [] size = none
remove_chunk_by_size (x ∷ list) size =
    if leb size x.size
    then some (record { start = x.start; size = size }, shrink x size ∷ list)
    else Option.map (λ r. (r.0, x ∷ r.1)) (remove_chunk_by_size list size)

pub remove_chunk_by_address : List Chunk → ℕ → Option (Chunk × List Chunk)
remove_chunk_by_address [] ptr = none
remove_chunk_by_address (x ∷ list) ptr =
    if x.start == ptr
    then some (x, empty_chunk ∷ list)
    else Option.map (λ r. (r.0, x ∷ r.1)) (remove_chunk_by_address list ptr)

unfoldable pub alloc_init : ℕ → ℕ → Heap → Heap
alloc_init start cap h = record {
  allocated = map (λ x. empty_chunk) h.allocated;
  freed = set (map (λ x. empty_chunk) h.freed) 0 (record { start = start; size = cap });
}

pub free : ℕ → Heap → Heap
free ptr h = if ptr == 0 then h else elim (remove_chunk_by_address h.allocated ptr) [
  | none ↦ h
  | some (c, allocated) ↦ elim (merge_chunk c h.freed) [
    | none ↦ record h { allocated = allocated }
    | some freed ↦ record { allocated = allocated; freed = freed }
  ]
]

-- The result is the pointer, 0 for `NULL`, and the heap after the call.
pub malloc : ℕ → Heap → ℕ × Heap
malloc size h = if size == 0 then (0, h) else elim (remove_chunk_by_size h.freed size) [
  | none ↦ (0, h)
  | some (c, freed) ↦ elim (insert_chunk c h.allocated) [
    | none ↦ (0, record h { freed = freed })
    | some allocated ↦ (c.start, record { allocated = allocated; freed = freed })
  ]
]
