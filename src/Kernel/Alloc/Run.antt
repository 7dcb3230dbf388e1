-- ===== src/Kernel/Alloc/Run.antt =====
-- A client's calls in order, and a failure that loses memory.
use amethyst_os_old.Base.{
  ℕ, suc, zero, ◌+◌, ◌^◌, ◌≤◌, ◌<◌, ◌≡◌, ◌≢◌, refl, some, List, [], ◌∷◌, arith, length, get_elem?,
  OnSome, ap,
}
use amethyst_os_old.Kernel.Alloc.{
  Chunk, Heap, alloc_init, malloc, free, remove_chunk_by_size, shrink,
}
use amethyst_os_old.Kernel.Alloc.Cover.{covers, cover, IsBlock}
use amethyst_os_old.Kernel.Alloc.Facts.{IsHeap}
use amethyst_os_old.Kernel.Alloc.Fits.{
  IsFull, Lacks, covers-le-cover, insert_chunk_full, Lacks-of_remove_chunk_by_size,
}
use amethyst_os_old.Kernel.Alloc.Rules.{malloc_rule}
use amethyst_os_old.Kernel.Alloc.Tiles.{malloc-IsHeap, free-IsHeap}
use amethyst_os_old.Kernel.Alloc.Live.{alloc_init-IsHeap, slot-IsBlock}

-- A call of the allocator.
pub data Call : Type 0 where
  alloc : ℕ → Call
  release : ℕ → Call

unfoldable pub run : List Call → Heap → Heap
run [] h = h
run (alloc n ∷ calls) h = run calls (malloc n h).1
run (release p ∷ calls) h = run calls (free p h)

-- Two slots of a table cover an address no more often than the table.
pub two_slots :
    (l : List Chunk) (i j a : ℕ) (c d : Chunk)
    → i ≢ j
    → get_elem? l i ≡ some c
    → get_elem? l j ≡ some d
    → covers c a + covers d a ≤ cover l a
two_slots [] i j a c d ne e e' = absurd (cc)
two_slots (x ∷ l) zero zero a c d ne e e' = absurd (ne refl)
two_slots (x ∷ l) zero (suc j) a c d ne e e' = ground (arith, covers-le-cover l j a d e')
two_slots (x ∷ l) (suc i) zero a c d ne e e' = ground (arith, covers-le-cover l i a c e)
two_slots (x ∷ l) (suc i) (suc j) a c d ne e e' =
    ground (arith, two_slots l i j a c d (λ q. ne (ap suc q)) e e')

-- The size of all blocks of a table.
abbrev pub free_bytes : List Chunk → ℕ
free_bytes [] = 0
free_bytes (x ∷ l) = x.size + free_bytes l

free_bytes-remove_chunk_by_size :
    (l : List Chunk) (n : ℕ)
    → OnSome (λ r. free_bytes r.1 + n ≡ free_bytes l) (remove_chunk_by_size l n)
unfolding remove_chunk_by_size shrink
free_bytes-remove_chunk_by_size [] n = tt
free_bytes-remove_chunk_by_size (x ∷ l) n = ground (arith, free_bytes-remove_chunk_by_size l n)

module _ (base limit : ℕ) (low : 0 < base) (high : limit < 2 ^ 32) where
  run-IsHeap :
      (calls : List Call) (h : Heap) → IsHeap base limit h → IsHeap base limit (run calls h)
  unfolding run
  run-IsHeap [] h v = v
  run-IsHeap (alloc n ∷ calls) h v =
      run-IsHeap calls (malloc n h).1 (malloc-IsHeap base limit low high n h v)
  run-IsHeap (release p ∷ calls) h v =
      run-IsHeap calls (free p h) (free-IsHeap base limit low high p h v)

  -- On a valid heap of a region that starts above address 0 and ends below 2 ^ 32, once the table of
  -- allocated blocks is full, a call for `n` > 0 bytes that finds a free block large enough returns
  -- `NULL` and loses them: the allocated blocks stay, and the free blocks are `n` bytes fewer.
  pub malloc_leak :
      (n : ℕ) (h : Heap)
      → IsHeap base limit h
      → 0 < n
      → IsFull h.allocated
      → ¬ Lacks n h.freed
      → ((malloc n h).0 ≡ 0)
        × ((malloc n h).1.allocated ≡ h.allocated)
        × (free_bytes (malloc n h).1.freed + n ≡ free_bytes h.freed)
  malloc_leak n h v pos full enough =
      malloc_rule
        (λ r.
          (r.0 ≡ 0)
          × (r.1.allocated ≡ h.allocated)
          × (free_bytes r.1.freed + n ≡ free_bytes h.freed))
        n h (λ z. absurd (omega arith))
        (λ _ e. absurd (enough (Lacks-of_remove_chunk_by_size h.freed n e)))
        (λ r _ e e'. (refl, refl, rw e at (free_bytes-remove_chunk_by_size h.freed n)))
        (λ r l _ e e'. absurd (cc (insert_chunk_full r.0 h.allocated full)))

-- Take a region of one byte at least that starts above address 0 and ends below 2 ^ 32, and a table
-- of free blocks with one slot at least. After any sequence of calls on the heap that `alloc_init`
-- made of them, every allocated block that is not empty lies in the region, and shares no byte with
-- another slot of the table.
pub run_disjoint :
    (start cap : ℕ) (h : Heap) (calls : List Call) (i j : ℕ) (c d : Chunk)
    → 0 < start
    → 0 < cap
    → start + cap < 2 ^ 32
    → 0 < length h.freed
    → i ≢ j
    → get_elem? (run calls (alloc_init start cap h)).allocated i ≡ some c
    → get_elem? (run calls (alloc_init start cap h)).allocated j ≡ some d
    → 0 < c.size
    → IsBlock start (start + cap) c × ((a : ℕ) → covers c a + covers d a ≤ 1)
run_disjoint start cap h calls i j c d low pos high room ne e e' size =
    let made = (alloc_init-IsHeap start cap h low pos room).0 in
    let v = run-IsHeap start (start + cap) low high calls (alloc_init start cap h) made in
    let l = (run calls (alloc_init start cap h)).allocated in
    (
      slot-IsBlock l i c v.allocated_slots e size,
      λ a. ground (arith, two_slots l i j a c d ne e e', v.no_overlap a),
    )
