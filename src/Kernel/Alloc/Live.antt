-- ===== src/Kernel/Alloc/Live.antt =====
-- When `malloc` fails, what `free` gives back, and the heap that `alloc_init` makes.
use mathlib.Core.Logic.{◌↔◌}
use amethyst_os_old.Base.{
  ℕ, ap, suc, zero, ◌+◌, ◌^◌, ◌<◌, ◌≡◌, ◌≢◌, ◌⊎◌, refl, none, some, List, [], ◌∷◌, map, arith,
  get_elem?, length, set, inl, inr,
}
use amethyst_os_old.Kernel.Alloc.{
  Chunk, Heap, empty_chunk, insert_chunk, merge_chunk, remove_chunk_by_size,
  remove_chunk_by_address, alloc_init, malloc, free,
}
use amethyst_os_old.Kernel.Alloc.Cover.{covers, cover, IsBlock, Slots}
use amethyst_os_old.Kernel.Alloc.Fits.{
  IsFull, Lacks, insert_chunk_full, IsFull-of_insert_chunk, remove_chunk_by_size-Lacks,
  Lacks-of_remove_chunk_by_size, insert_chunk-get_elem?, remove_chunk_by_address_block,
  merge_chunk_after_cut,
}
use amethyst_os_old.Kernel.Alloc.Rules.{malloc_rule, free_rule}
use amethyst_os_old.Kernel.Alloc.Facts.{region, IsHeap, cut, inserted, merged, taken}

IsFull-of_merge_chunk : (c : Chunk) (l : List Chunk) → merge_chunk c l ≡ none → IsFull l
unfolding merge_chunk
IsFull-of_merge_chunk c l e = IsFull-of_insert_chunk c l (ground arith)

pub slot-IsBlock :
    {base limit : ℕ} (l : List Chunk) (i : ℕ) (c : Chunk)
    → Slots base limit l
    → get_elem? l i ≡ some c
    → 0 < c.size
    → IsBlock base limit c
slot-IsBlock [] i c s e pos = absurd (cc)
slot-IsBlock (x ∷ l) zero c s e pos = ground arith
slot-IsBlock (x ∷ l) (suc i) c s e pos = slot-IsBlock l i c s.1 e pos

-- Exactly the bytes of `c` go from the allocated blocks to the free ones.
abbrev pub Releases : Chunk → Heap → Heap → Type 0
Releases c h h' =
    (a : ℕ)
    → (cover h.allocated a ≡ cover h'.allocated a + covers c a)
      × (cover h'.freed a ≡ cover h.freed a + covers c a)

-- Every address is covered as often in one heap as in the other.
abbrev pub Same : Heap → Heap → Type 0
Same h h' =
    (a : ℕ) → (cover h'.allocated a ≡ cover h.allocated a) × (cover h'.freed a ≡ cover h.freed a)

module _ (base limit : ℕ) (low : 0 < base) (high : limit < 2 ^ 32) where
  -- On a valid heap of a region that starts above address 0 and ends below 2 ^ 32, `malloc` returns
  -- `NULL` exactly when the size is 0, no free block is large enough, or the table of allocated
  -- blocks is full.
  pub malloc-eq-null :
      (n : ℕ) (h : Heap)
      → IsHeap base limit h
      → ((malloc n h).0 ≡ 0) ↔ ((n ≡ 0) ⊎ Lacks n h.freed ⊎ IsFull h.allocated)
  malloc-eq-null n h v =
      malloc_rule (λ r. (r.0 ≡ 0) ↔ ((n ≡ 0) ⊎ Lacks n h.freed ⊎ IsFull h.allocated)) n h
        (λ e. (λ _. inl e, λ _. refl))
        (λ pos e. (λ _. inr (inl (Lacks-of_remove_chunk_by_size h.freed n e)), λ _. refl))
        (λ r pos e e'. (λ _. inr (inr (IsFull-of_insert_chunk r.0 h.allocated e')), λ _. refl))
        (λ r l pos e e'. (
          λ z. absurd (omega (arith, (cut base limit low high n h.freed pos v.freed_slots e).0)),
          λ why. absurd (elim why [
            | inl z ↦ omega arith
            | inr (inl lacks) ↦ cc (remove_chunk_by_size-Lacks h.freed n lacks)
            | inr (inr full) ↦ cc (insert_chunk_full r.0 h.allocated full)
          ]),
        ))

  allocated-IsBlock :
      (i : ℕ) (c : Chunk) (h : Heap)
      → IsHeap base limit h
      → get_elem? h.allocated i ≡ some c
      → 0 < c.size
      → IsBlock base limit c
  allocated-IsBlock i c h v e pos = slot-IsBlock h.allocated i c v.allocated_slots e pos

  find :
      (i : ℕ) (c : Chunk) (h : Heap)
      → IsHeap base limit h
      → get_elem? h.allocated i ≡ some c
      → 0 < c.size
      → (l' : List Chunk) × (remove_chunk_by_address h.allocated c.start ≡ some (c, l'))
  find i c h v e pos =
      remove_chunk_by_address_block base limit low high h.allocated i c e
        (allocated-IsBlock i c h v e pos) v.allocated_slots (ground (arith, v.no_overlap c.start))

  -- On a valid heap of a region that starts above address 0 and ends below 2 ^ 32, freeing an
  -- allocated block that is not empty moves exactly its bytes to the free blocks, provided that the
  -- table of free blocks has an empty slot.
  pub free_block :
      (i : ℕ) (c : Chunk) (h : Heap)
      → IsHeap base limit h
      → get_elem? h.allocated i ≡ some c
      → 0 < c.size
      → ¬ IsFull h.freed
      → Releases c h (free c.start h)
  free_block i c h v e pos room =
      let b = allocated-IsBlock i c h v e pos in
      let (l', found) = find i c h v e pos in
      free_rule (Releases c h) c.start h (λ z. absurd (omega (arith, b))) (λ _ e₁. absurd (cc))
        (λ r _ e₁ e₂. absurd (room (IsFull-of_merge_chunk r.0 h.freed e₂)))
        (λ r l p e₁ e₂ a.
          let t = taken base limit low high c.start h.allocated p v.allocated_slots e₁ in
          let m = merged base limit low high r.0 h.freed l t.0 v.freed_slots e₂ in
          let same : r.0 ≡ c = ground arith in rw (← same) (t.3 a, m.1 a))

  free_new :
      (n : ℕ) (h : Heap)
      → IsHeap base limit h
      → (r : Chunk × List Chunk) (l : List Chunk) → 0 < n
      → remove_chunk_by_size h.freed n ≡ some r
      → insert_chunk r.0 h.allocated ≡ some l
      → Same h (free r.0.start (record { allocated = l; freed = r.1 }))
  free_new n h v r l pos e e' =
      let k = cut base limit low high n h.freed pos v.freed_slots e in
      let ins = inserted base limit low high r.0 h.allocated l k.0 v.allocated_slots e' in
      let (i, at) = insert_chunk-get_elem? r.0 h.allocated l e' in
      let (l', found) =
        remove_chunk_by_address_block base limit low high l i r.0 at k.0 ins.0
          (ground (arith, v.no_overlap r.0.start, ins.1 r.0.start, k.3 r.0.start)) in
      free_rule (Same h) r.0.start (record { allocated = l; freed = r.1 })
        (λ z. absurd (omega (arith, k.0))) (λ _ e₁. absurd (cc))
        (λ q _ e₁ e₂.
          let same : q.0 ≡ r.0 = ground arith in
          absurd (
            merge_chunk_after_cut base limit low high h.freed n r pos v.freed_slots e
              (rw same at e₂)))
        (λ q m p e₁ e₂ a.
          let t = taken base limit low high r.0.start l p ins.0 e₁ in
          let g = merged base limit low high q.0 r.1 m t.0 k.2 e₂ in
          let same : q.0 ≡ r.0 = ground arith in
          let moved : covers q.0 a ≡ covers r.0 a = ap (λ x. covers x a) same in
          (omega (arith, t.3 a, ins.1 a, moved), omega (arith, g.1 a, k.3 a, moved)))

  -- On a valid heap of a region that starts above address 0 and ends below 2 ^ 32, `free` undoes a
  -- `malloc` that did not return `NULL`: after both calls every address is allocated, or free, as
  -- often as before.
  pub free-malloc :
      (n : ℕ) (h : Heap)
      → IsHeap base limit h
      → (malloc n h).0 ≢ 0
      → Same h (free (malloc n h).0 (malloc n h).1)
  free-malloc n h v =
      malloc_rule (λ r. r.0 ≢ 0 → Same h (free r.0 r.1)) n h (λ e ne. absurd (ne refl))
        (λ pos e ne. absurd (ne refl)) (λ r pos e e' ne. absurd (ne refl))
        (λ r l pos e e' ne. free_new n h v r l pos e e')

abbrev cleared : List Chunk → List Chunk
cleared = map (λ x. empty_chunk)

cover-cleared : (l : List Chunk) (a : ℕ) → cover (cleared l) a ≡ 0
cover-cleared [] a = refl
cover-cleared (x ∷ l) a = ground (arith, cover-cleared l a)

cleared-Slots : (base limit : ℕ) (l : List Chunk) → Slots base limit (cleared l)
cleared-Slots base limit [] = tt
cleared-Slots base limit (x ∷ l) = (inl (refl, refl), cleared-Slots base limit l)

cover_first :
    (l : List Chunk) (c : Chunk) (a : ℕ) → 0 < length l → cover (set (cleared l) 0 c) a ≡ covers c a
cover_first [] c a pos = absurd (omega arith)
cover_first (x ∷ l) c a pos = ground (arith, cover-cleared l a)

first-Slots :
    (base limit : ℕ) (l : List Chunk) (c : Chunk)
    → IsBlock base limit c
    → Slots base limit (set (cleared l) 0 c)
first-Slots base limit [] c b = tt
first-Slots base limit (x ∷ l) c b = (inr b, cleared-Slots base limit l)

-- `alloc_init` makes a valid heap of the region that it is given, if that has one byte at least and
-- starts above address 0, and the table of free blocks has one slot at least: every byte of the
-- region is free, and nothing is allocated.
pub alloc_init-IsHeap :
    (start cap : ℕ) (h : Heap)
    → 0 < start
    → 0 < cap
    → 0 < length h.freed
    → IsHeap start (start + cap) (alloc_init start cap h)
      × ((a : ℕ) → cover (alloc_init start cap h).freed a ≡ region start (start + cap) a)
      × ((a : ℕ) → cover (alloc_init start cap h).allocated a ≡ 0)
unfolding alloc_init
alloc_init-IsHeap start cap h low pos room =
    let c : Chunk = record { start = start; size = cap } in
    let free_bytes : (a : ℕ) → cover (set (cleared h.freed) 0 c) a ≡ region start (start + cap) a =
      λ a. cover_first h.freed c a room in
    (
      record {
        allocated_slots = cleared-Slots start (start + cap) h.allocated;
        freed_slots = first-Slots start (start + cap) h.freed c (omega arith);
        no_overlap = λ a. omega (arith, cover-cleared h.allocated a, free_bytes a);
      },
      free_bytes,
      cover-cleared h.allocated,
    )
