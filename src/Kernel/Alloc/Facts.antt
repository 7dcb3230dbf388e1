-- ===== src/Kernel/Alloc/Facts.antt =====
-- The heap invariant, and what each table operation does to the blocks.
use amethyst_os_old.Base.{ℕ, ◌+◌, ◌^◌, ◌≤◌, ◌<◌, ◌≡◌, ◌&&◌, some, List, ltb, leb, if◌then◌else◌}
use amethyst_os_old.Kernel.Alloc.{
  Chunk, Heap, remove_chunk_by_size, insert_chunk, remove_chunk_by_address, merge_chunk,
}
use amethyst_os_old.Kernel.Alloc.Cover.{
  covers, cover, IsBlock, Slots, cover-insert_chunk, insert_chunk-Slots, cover-merge_chunk,
  merge_chunk-Slots, remove_chunk_by_size-Slots, cover-remove_chunk_by_size,
  remove_chunk_by_address-Slots, cover-remove_chunk_by_address,
}

-- 1 inside the heap's region.
abbrev pub region : ℕ → ℕ → ℕ → ℕ
region base limit a = if leb base a && ltb a limit then 1 else 0

pub record IsHeap (base limit : ℕ) (h : Heap) : Type 0 where
  pub allocated_slots : Slots base limit h.allocated
  pub freed_slots : Slots base limit h.freed
  pub no_overlap : (a : ℕ) → cover h.allocated a + cover h.freed a ≤ region base limit a

module _ (base limit : ℕ) (low : 0 < base) (high : limit < 2 ^ 32) where
  -- What `remove_chunk_by_size` cuts off: `n` bytes of the free blocks.
  abbrev pub Cut : ℕ → List Chunk → Chunk → List Chunk → Type 0
  Cut n l c l' =
      IsBlock base limit c
      × (c.size ≡ n)
      × Slots base limit l'
      × ((a : ℕ) → cover l a ≡ cover l' a + covers c a)

  pub cut :
      (n : ℕ) (l : List Chunk) {r : Chunk × List Chunk}
      → 0 < n
      → Slots base limit l
      → remove_chunk_by_size l n ≡ some r
      → Cut n l r.0 r.1
  cut n l pos s e =
      let (b, z, t) = rw e at (remove_chunk_by_size-Slots base limit low high l n pos s) in
      (b, z, t, λ a. rw e at (cover-remove_chunk_by_size base limit low high l n a pos s))

  -- What adding the block `c` to a table makes of it.
  abbrev pub Added : List Chunk → Chunk → List Chunk → Type 0
  Added l c l' = Slots base limit l' × ((a : ℕ) → cover l' a ≡ cover l a + covers c a)

  pub inserted :
      (c : Chunk) (l l' : List Chunk)
      → IsBlock base limit c
      → Slots base limit l
      → insert_chunk c l ≡ some l'
      → Added l c l'
  inserted c l l' b s e = (
    rw e at (insert_chunk-Slots base limit low high c l b s),
    λ a. rw e at (cover-insert_chunk c l a),
  )

  pub merged :
      (c : Chunk) (l l' : List Chunk)
      → IsBlock base limit c
      → Slots base limit l
      → merge_chunk c l ≡ some l'
      → Added l c l'
  merged c l l' b s e = (
    rw e at (merge_chunk-Slots base limit low high c l b s),
    λ a. rw e at (cover-merge_chunk base limit low high c l a b s),
  )

  -- What `remove_chunk_by_address` takes out of a table.
  abbrev pub Taken : ℕ → List Chunk → Chunk → List Chunk → Type 0
  Taken p l c l' =
      IsBlock base limit c
      × (c.start ≡ p)
      × Slots base limit l'
      × ((a : ℕ) → cover l a ≡ cover l' a + covers c a)

  pub taken :
      (p : ℕ) (l : List Chunk) {r : Chunk × List Chunk}
      → 0 < p
      → Slots base limit l
      → remove_chunk_by_address l p ≡ some r
      → Taken p l r.0 r.1
  taken p l pos s e =
      let (b, z, t) = rw e at (remove_chunk_by_address-Slots base limit low high l p pos s) in
      (b, z, t, λ a. rw e at (cover-remove_chunk_by_address l p a))
