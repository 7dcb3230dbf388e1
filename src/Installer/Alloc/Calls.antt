-- ===== src/Installer/Alloc/Calls.antt =====
-- A client's calls in order: the heap stays valid, no two free blocks are neighbours, and a call
-- that fails says why.
use amethyst_os_old.Base.{
  ℕ, ◌+◌, ◌-◌, ◌^◌, ◌≤◌, ◌<◌, ◌≡◌, ◌≢◌, inl, inr, some, List, [], ◌∷◌, arith, ◌==◌, set, get_elem?,
  length, Option-cases, Bool-cases,
}
use native.Mathlib.Decide.{ℕ_discrete}
use amethyst_os_old.Kernel.Alloc as KernelAlloc
use amethyst_os_old.Kernel.Alloc.{
  Chunk, Heap, empty_chunk, insert_chunk, remove_chunk_by_size, remove_chunk_by_address, shrink,
}
use amethyst_os_old.Kernel.Alloc.Cover.{cover, Slots}
use amethyst_os_old.Kernel.Alloc.Facts.{IsHeap, Taken, taken}
use amethyst_os_old.Kernel.Alloc.Fits.{remove_chunk_by_size-set, shrink_lem}
use amethyst_os_old.Kernel.Alloc.Init.{alloc_init-get_elem?}
use amethyst_os_old.Kernel.Alloc.Rules.{malloc_rule}
use amethyst_os_old.Kernel.Alloc.Run.{Call, alloc, release, two_slots}
use amethyst_os_old.Kernel.Alloc.Tiles.{malloc-IsHeap}
use amethyst_os_old.Kernel.Alloc.Live.{alloc_init-IsHeap}
use amethyst_os_old.Installer.Machine.{Machine}
use amethyst_os_old.Installer.Alloc.{alloc_init, merge_chunk, malloc, free}
use amethyst_os_old.Installer.Alloc.Merge.{get_elem?-set, get_elem?-lt, get-IsSlot}
use amethyst_os_old.Installer.Alloc.Coalesced.{IsCoalesced}
use amethyst_os_old.Installer.Alloc.Gains.{Gains, merge_chunk-Gains, insert_chunk-Gains}

-- On the heap, `malloc` does what the kernel's does.
pub malloc-kernel :
    (n : ℕ) (m : Machine)
    → ((malloc n m).0 ≡ (KernelAlloc.malloc n m.heap).0)
      × ((malloc n m).1.heap ≡ (KernelAlloc.malloc n m.heap).1)
unfolding malloc
malloc-kernel n m =
    malloc_rule (λ r. ((malloc n m).0 ≡ r.0) × ((malloc n m).1.heap ≡ r.1)) n m.heap
      (λ e. ground arith) (λ pos e. ground arith) (λ r pos e e'. ground arith)
      (λ r l pos e e'. ground arith)

-- The heap is valid, and no two free blocks are neighbours.
pub record IsTidy (base limit : ℕ) (h : Heap) : Type 0 where
  pub valid : IsHeap base limit h
  pub coalesced : IsCoalesced h.freed

unfoldable pub run : List Call → Machine → Machine
run [] m = m
run (alloc n ∷ calls) m = run calls (malloc n m).1
run (release p ∷ calls) m = run calls (free p m)

module _ (base limit : ℕ) (low : 0 < base) (high : limit < 2 ^ 32) where
  shrunk-apart :
      (l : List Chunk) (i : ℕ) (x : Chunk) (n a b : ℕ) (y z : Chunk)
      → Slots base limit l
      → ((k : ℕ) → cover l k ≤ 1)
      → IsCoalesced l
      → get_elem? l i ≡ some x
      → n ≤ x.size
      → get_elem? (set l i (shrink x n)) a ≡ some y
      → get_elem? (set l i (shrink x n)) b ≡ some z
      → 0 < y.size
      → 0 < z.size
      → y.start + y.size ≢ z.start
  shrunk-apart l i x n a b y z s one coalesced ex le ey ez sy sz =
      let slot = get-IsSlot base limit l i x s ex in
      let here = get_elem?-lt l i x ex in
      let left = shrink_lem x n in
      let at_a = get_elem?-set l i a (shrink x n) here in
      let at_b = get_elem?-set l i b (shrink x n) here in
      elim (ℕ_discrete i b) [
        | yes q ↦ elim (ℕ_discrete i a) [
          | yes p ↦ ground arith
          | no p ↦ ground (
            arith,
            coalesced a i y x,
            two_slots l a i (y.start + y.size - 1) y x,
            one (y.start + y.size - 1),
          )
        ]
        | no q ↦ elim (ℕ_discrete i a) [
          | yes p ↦ ground (arith, coalesced i b x z)
          | no p ↦ coalesced a b y z (ground arith) (ground arith) sy sz
        ]
      ]

  pub malloc-IsTidy :
      (n : ℕ) (m : Machine) → IsTidy base limit m.heap → IsTidy base limit (malloc n m).1.heap
  malloc-IsTidy n m t =
      let (_, same) = malloc-kernel n m in
      rw same (record {
        valid = malloc-IsHeap base limit low high n m.heap t.valid;
        coalesced =
            malloc_rule (λ r. IsCoalesced r.1.freed) n m.heap (λ e. t.coalesced)
              (λ pos e. t.coalesced) (λ r pos e e'. cut_coalesced r e)
              (λ r l pos e e'. cut_coalesced r e);
      })
    where
      cut_coalesced :
          (r : Chunk × List Chunk) → remove_chunk_by_size m.heap.freed n ≡ some r → IsCoalesced r.1
      cut_coalesced r e =
          let (i, x, ex, le, same) = remove_chunk_by_size-set m.heap.freed n r e in
          rw same (λ a b y z ey ez sy sz.
            shrunk-apart m.heap.freed i x n a b y z t.valid.freed_slots
              (λ k. ground (arith, t.valid.no_overlap k)) t.coalesced ex le ey ez sy sz)

  pub free-IsTidy :
      (p : ℕ) (m : Machine) → IsTidy base limit m.heap → IsTidy base limit (free p m).heap
  unfolding free
  free-IsTidy p m t = elim (Bool-cases (p == 0)) [
    | inl z ↦ rw z t
    | inr nz ↦ elim (Option-cases (remove_chunk_by_address m.heap.allocated p)) [
      | inl e ↦ rw (nz, e) t
      | inr (r, e) ↦
          let v = t.valid in
          let k = taken base limit low high p m.heap.allocated (ground arith) v.allocated_slots e in
          elim (Option-cases (merge_chunk r.0 m.heap.freed)) [
            | inr (l, e₁) ↦
                rw (nz, e, e₁)
                  (gained r l k (
                    merge_chunk-Gains base limit low high r.0 m.heap.freed l k.0 v.freed_slots
                      t.coalesced e₁))
            | inl e₁ ↦ elim (Option-cases (insert_chunk r.0 m.heap.freed)) [
              | inr (l, e₂) ↦
                  rw (nz, e, e₁, e₂)
                    (gained r l k (
                      insert_chunk-Gains base limit low high r.0 m.heap.freed l k.0 v.freed_slots
                        t.coalesced e₁ e₂))
              | inl e₂ ↦
                  rw (nz, e, e₁, e₂)
                    (record {
                      valid = record {
                        allocated_slots = k.2;
                        freed_slots = v.freed_slots;
                        no_overlap = λ a. omega (arith, v.no_overlap a, k.3 a);
                      };
                      coalesced = t.coalesced;
                    })
            ]
          ]
    ]
  ]
    where
      gained :
          (r : Chunk × List Chunk) (l : List Chunk)
          → Taken base limit low high p m.heap.allocated r.0 r.1
          → Gains base limit low high m.heap.freed r.0 l
          → IsTidy base limit (record { allocated = r.1; freed = l })
      gained r l k g = record {
        valid = record {
          allocated_slots = k.2;
          freed_slots = g.0;
          no_overlap = λ a. omega (arith, t.valid.no_overlap a, k.3 a, g.2 a);
        };
        coalesced = g.1;
      }

  run-IsTidy :
      (calls : List Call) (m : Machine)
      → IsTidy base limit m.heap
      → IsTidy base limit (run calls m).heap
  unfolding run
  run-IsTidy [] m t = t
  run-IsTidy (alloc n ∷ calls) m t = run-IsTidy calls (malloc n m).1 (malloc-IsTidy n m t)
  run-IsTidy (release p ∷ calls) m t = run-IsTidy calls (free p m) (free-IsTidy p m t)

-- Take a region of one byte at least that starts above address 0 and ends below 2 ^ 32, and a table
-- of free chunks with one slot at least. After any sequence of calls on the heap that `alloc_init`
-- made of them, the heap is valid, and no free block ends where another begins.
pub run-IsTidy_of_alloc_init :
    (start cap : ℕ) (m : Machine) (calls : List Call)
    → 0 < start
    → 0 < cap
    → start + cap < 2 ^ 32
    → 0 < length m.heap.freed
    → IsTidy start (start + cap) (run calls (alloc_init start cap m)).heap
run-IsTidy_of_alloc_init start cap m calls low pos high room =
    run-IsTidy start (start + cap) low high calls (alloc_init start cap m) (record {
      valid = (alloc_init-IsHeap start cap m.heap low pos room).0;
      coalesced = λ i j x y ex ey sx sy. ground (
        arith,
        alloc_init-get_elem? start cap m.heap i x ex sx,
        alloc_init-get_elem? start cap m.heap j y ey sy,
      );
    })
