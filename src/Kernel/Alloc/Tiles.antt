-- ===== src/Kernel/Alloc/Tiles.antt =====
-- `malloc` and `free` keep the heap invariant: the blocks of both tables lie in the heap's region
-- and never overlap.
use amethyst_os_old.Base.{ℕ, ◌+◌, ◌^◌, ◌≤◌, ◌<◌, ◌≡◌, ◌≢◌, refl, arith}
use amethyst_os_old.Kernel.Alloc.{Heap, malloc, free}
use amethyst_os_old.Kernel.Alloc.Cover.{covers, cover}
use amethyst_os_old.Kernel.Alloc.Facts.{IsHeap, cut, inserted, merged, taken}
use amethyst_os_old.Kernel.Alloc.Rules.{malloc_rule, free_rule}

-- What a successful allocation of `n` bytes at `p` does: the block lies in the heap's region, and
-- exactly its bytes go from the free blocks to the allocated ones.
abbrev pub Allocates : ℕ → ℕ → ℕ → Heap → ℕ × Heap → Type 0
Allocates base limit n h (p, h') =
    (base ≤ p)
    × (p + n ≤ limit)
    × ((a : ℕ)
        → (cover h'.allocated a ≡ cover h.allocated a + covers (record { start = p; size = n }) a)
          × (cover h.freed a ≡ cover h'.freed a + covers (record { start = p; size = n }) a))

module _ (base limit : ℕ) (low : 0 < base) (high : limit < 2 ^ 32) where
  -- For a region that starts above address 0 and ends below 2 ^ 32, `malloc` keeps the heap invariant
  -- for every size and on every branch, the failing ones too.
  pub malloc-IsHeap : (n : ℕ) (h : Heap) → IsHeap base limit h → IsHeap base limit (malloc n h).1
  malloc-IsHeap n h v =
      malloc_rule (λ r. IsHeap base limit r.1) n h (λ e. v) (λ pos e. v)
        (λ r pos e e'.
          let c = cut base limit low high n h.freed pos v.freed_slots e in
          record {
            allocated_slots = v.allocated_slots;
            freed_slots = c.2;
            no_overlap = λ a. omega (arith, v.no_overlap a, c.3 a);
          })
        (λ r l pos e e'.
          let c = cut base limit low high n h.freed pos v.freed_slots e in
          let i = inserted base limit low high r.0 h.allocated l c.0 v.allocated_slots e' in
          record {
            allocated_slots = i.0;
            freed_slots = c.2;
            no_overlap = λ a. omega (arith, v.no_overlap a, c.3 a, i.1 a);
          })

  -- For a region that starts above address 0 and ends below 2 ^ 32, `free` keeps the heap invariant
  -- for every pointer, also one that was never allocated.
  pub free-IsHeap : (p : ℕ) (h : Heap) → IsHeap base limit h → IsHeap base limit (free p h)
  free-IsHeap p h v =
      free_rule (IsHeap base limit) p h (λ e. v) (λ pos e. v)
        (λ r pos e e'.
          let t = taken base limit low high p h.allocated pos v.allocated_slots e in
          record {
            allocated_slots = t.2;
            freed_slots = v.freed_slots;
            no_overlap = λ a. omega (arith, v.no_overlap a, t.3 a);
          })
        (λ r l pos e e'.
          let t = taken base limit low high p h.allocated pos v.allocated_slots e in
          let m = merged base limit low high r.0 h.freed l t.0 v.freed_slots e' in
          record {
            allocated_slots = t.2;
            freed_slots = m.0;
            no_overlap = λ a. omega (arith, v.no_overlap a, t.3 a, m.1 a);
          })

  -- On a valid heap of a region that starts above address 0 and ends below 2 ^ 32, whenever `malloc`
  -- returns a pointer other than `NULL`, the block there lies in the region, and exactly its `n`
  -- bytes go from the free blocks to the allocated ones.
  pub malloc-Allocates :
      (n : ℕ) (h : Heap)
      → IsHeap base limit h
      → (malloc n h).0 ≢ 0
      → Allocates base limit n h (malloc n h)
  malloc-Allocates n h v =
      malloc_rule (λ r. r.0 ≢ 0 → Allocates base limit n h r) n h (λ e ne. absurd (ne refl))
        (λ pos e ne. absurd (ne refl)) (λ r pos e e' ne. absurd (ne refl))
        (λ r l pos e e' ne.
          let c = cut base limit low high n h.freed pos v.freed_slots e in
          let i = inserted base limit low high r.0 h.allocated l c.0 v.allocated_slots e' in
          (
            omega (arith, c.0),
            omega (arith, c.0, c.1),
            λ a. (ground (arith, c.1, i.1 a), ground (arith, c.1, c.3 a)),
          ))
