-- ===== src/Kernel/Alloc/Rules.antt =====
-- The ways through `malloc` and `free`: what holds at each exit holds of every call.
use amethyst_os_old.Base.{
  ℕ, ◌≡◌, ◌<◌, none, some, List, arith, Bool-cases, Option-cases, inl, inr, ◌==◌,
}
use amethyst_os_old.Kernel.Alloc.{
  Chunk, Heap, malloc, free, remove_chunk_by_size, insert_chunk, remove_chunk_by_address,
  merge_chunk,
}

module _ {ℓ} (P : ℕ × Heap → Type ℓ) (n : ℕ) (h : Heap) where
  pub malloc_rule :
      (n ≡ 0 → P (0, h))
      → (0 < n → remove_chunk_by_size h.freed n ≡ none → P (0, h))
      → ((r : Chunk × List Chunk)
          → 0 < n
          → remove_chunk_by_size h.freed n ≡ some r
          → insert_chunk r.0 h.allocated ≡ none
          → P (0, record h { freed = r.1 }))
      → ((r : Chunk × List Chunk) (l : List Chunk)
          → 0 < n
          → remove_chunk_by_size h.freed n ≡ some r
          → insert_chunk r.0 h.allocated ≡ some l
          → P (r.0.start, record { allocated = l; freed = r.1 }))
      → P (malloc n h)
  unfolding malloc
  malloc_rule zero_size no_block no_slot done = elim (Bool-cases (n == 0)) [
    | inl e ↦ rw e (zero_size (ground arith))
    | inr e ↦ elim (Option-cases (remove_chunk_by_size h.freed n)) [
      | inl e₁ ↦ rw (e, e₁) (no_block (ground arith) e₁)
      | inr (r, e₁) ↦ elim (Option-cases (insert_chunk r.0 h.allocated)) [
        | inl e₂ ↦ rw (e, e₁, e₂) (no_slot r (ground arith) e₁ e₂)
        | inr (l, e₂) ↦ rw (e, e₁, e₂) (done r l (ground arith) e₁ e₂)
      ]
    ]
  ]

module _ {ℓ} (P : Heap → Type ℓ) (p : ℕ) (h : Heap) where
  pub free_rule :
      (p ≡ 0 → P h)
      → (0 < p → remove_chunk_by_address h.allocated p ≡ none → P h)
      → ((r : Chunk × List Chunk)
          → 0 < p
          → remove_chunk_by_address h.allocated p ≡ some r
          → merge_chunk r.0 h.freed ≡ none
          → P (record h { allocated = r.1 }))
      → ((r : Chunk × List Chunk) (l : List Chunk)
          → 0 < p
          → remove_chunk_by_address h.allocated p ≡ some r
          → merge_chunk r.0 h.freed ≡ some l
          → P (record { allocated = r.1; freed = l }))
      → P (free p h)
  unfolding free
  free_rule null unknown no_slot done = elim (Bool-cases (p == 0)) [
    | inl e ↦ rw e (null (ground arith))
    | inr e ↦ elim (Option-cases (remove_chunk_by_address h.allocated p)) [
      | inl e₁ ↦ rw (e, e₁) (unknown (ground arith) e₁)
      | inr (r, e₁) ↦ elim (Option-cases (merge_chunk r.0 h.freed)) [
        | inl e₂ ↦ rw (e, e₁, e₂) (no_slot r (ground arith) e₁ e₂)
        | inr (l, e₂) ↦ rw (e, e₁, e₂) (done r l (ground arith) e₁ e₂)
      ]
    ]
  ]
