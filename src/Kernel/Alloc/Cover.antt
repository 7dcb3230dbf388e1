-- ===== src/Kernel/Alloc/Cover.antt =====
-- How often the chunks of a table cover an address, and what the table operations do to that.
use amethyst_os_old.Base.{
  ℕ, ◌+◌, ◌^◌, ◌≤◌, ◌<◌, ◌≡◌, ◌⊎◌, ◌&&◌, List, [], ◌∷◌, arith, ltb, leb, if◌then◌else◌, All, OnSome,
}
use amethyst_os_old.Kernel.Alloc.{
  Chunk, insert_chunk, merge_scan, merge_chunk, shrink, remove_chunk_by_size,
  remove_chunk_by_address,
}

-- 1 if the chunk holds the byte at address `a`.
abbrev pub covers : Chunk → ℕ → ℕ
covers c a = if leb c.start a && ltb a (c.start + c.size) then 1 else 0

abbrev pub cover : List Chunk → ℕ → ℕ
cover [] a = 0
cover (x ∷ l) a = covers x a + cover l a

-- A slot is empty, or holds a block of the region from `base` to `limit`.
abbrev pub IsBlock : ℕ → ℕ → Chunk → Type 0
IsBlock base limit c = (base ≤ c.start) × (0 < c.size) × (c.start + c.size ≤ limit)

abbrev pub IsSlot : ℕ → ℕ → Chunk → Type 0
IsSlot base limit c = (c.start ≡ 0) × (c.size ≡ 0) ⊎ IsBlock base limit c

abbrev pub Slots : ℕ → ℕ → List Chunk → Type 0
Slots base limit = All (IsSlot base limit)

pub cover-insert_chunk :
    (c : Chunk) (l : List Chunk) (a : ℕ)
    → OnSome (λ l'. cover l' a ≡ cover l a + covers c a) (insert_chunk c l)
unfolding insert_chunk
cover-insert_chunk c [] a = tt
cover-insert_chunk c (x ∷ l) a = ground (arith, cover-insert_chunk c l a)

module _ (base limit : ℕ) (low : 0 < base) (high : limit < 2 ^ 32) where
  pub insert_chunk-Slots :
      (c : Chunk) (l : List Chunk)
      → IsBlock base limit c
      → Slots base limit l
      → OnSome (Slots base limit) (insert_chunk c l)
  unfolding insert_chunk
  insert_chunk-Slots c [] b h = tt
  insert_chunk-Slots c (x ∷ l) b h = ground (arith, insert_chunk-Slots c l b h.1)

  pub cover-merge_scan :
      (c : Chunk) (l : List Chunk) (a : ℕ)
      → IsBlock base limit c
      → Slots base limit l
      → OnSome (λ l'. cover l' a ≡ cover l a + covers c a) (merge_scan c l)
  unfolding merge_scan
  cover-merge_scan c [] a b h = tt
  cover-merge_scan c (x ∷ l) a b h = ground (arith, cover-merge_scan c l a b h.1)

  pub merge_scan-Slots :
      (c : Chunk) (l : List Chunk)
      → IsBlock base limit c
      → Slots base limit l
      → OnSome (Slots base limit) (merge_scan c l)
  unfolding merge_scan
  merge_scan-Slots c [] b h = tt
  merge_scan-Slots c (x ∷ l) b h = ground (arith, merge_scan-Slots c l b h.1)

  pub cover-merge_chunk :
      (c : Chunk) (l : List Chunk) (a : ℕ)
      → IsBlock base limit c
      → Slots base limit l
      → OnSome (λ l'. cover l' a ≡ cover l a + covers c a) (merge_chunk c l)
  unfolding merge_chunk
  cover-merge_chunk c l a b h = ground (arith, cover-merge_scan c l a b h, cover-insert_chunk c l a)

  pub merge_chunk-Slots :
      (c : Chunk) (l : List Chunk)
      → IsBlock base limit c
      → Slots base limit l
      → OnSome (Slots base limit) (merge_chunk c l)
  unfolding merge_chunk
  merge_chunk-Slots c l b h = ground (arith, merge_scan-Slots c l b h, insert_chunk-Slots c l b h)

  shrink-IsSlot :
      (x : Chunk) (n : ℕ)
      → IsSlot base limit x
      → 0 < n
      → n ≤ x.size
      → IsSlot base limit (shrink x n)
  unfolding shrink
  shrink-IsSlot x n s pos le = ground arith

  cover-shrink :
      (x : Chunk) (n a : ℕ)
      → IsSlot base limit x
      → 0 < n
      → n ≤ x.size
      → covers x a ≡ covers (shrink x n) a + covers (record { start = x.start; size = n }) a
  unfolding shrink
  cover-shrink x n a s pos le = ground arith

  -- The block that `remove_chunk_by_size` cuts off: what it is, and what is left.
  pub remove_chunk_by_size-Slots :
      (l : List Chunk) (n : ℕ)
      → 0 < n
      → Slots base limit l
      → OnSome
          (λ r. IsBlock base limit r.0 × (r.0.size ≡ n) × Slots base limit r.1)
          (remove_chunk_by_size l n)
  unfolding remove_chunk_by_size
  remove_chunk_by_size-Slots [] n pos h = tt
  remove_chunk_by_size-Slots (x ∷ l) n pos h =
      ground (arith, shrink-IsSlot x n h.0 pos, remove_chunk_by_size-Slots l n pos h.1)

  pub cover-remove_chunk_by_size :
      (l : List Chunk) (n a : ℕ)
      → 0 < n
      → Slots base limit l
      → OnSome (λ r. cover l a ≡ cover r.1 a + covers r.0 a) (remove_chunk_by_size l n)
  unfolding remove_chunk_by_size
  cover-remove_chunk_by_size [] n a pos h = tt
  cover-remove_chunk_by_size (x ∷ l) n a pos h =
      ground (arith, cover-shrink x n a h.0 pos, cover-remove_chunk_by_size l n a pos h.1)

  pub remove_chunk_by_address-Slots :
      (l : List Chunk) (p : ℕ)
      → 0 < p
      → Slots base limit l
      → OnSome
          (λ r. IsBlock base limit r.0 × (r.0.start ≡ p) × Slots base limit r.1)
          (remove_chunk_by_address l p)
  unfolding remove_chunk_by_address
  remove_chunk_by_address-Slots [] p pos h = tt
  remove_chunk_by_address-Slots (x ∷ l) p pos h =
      ground (arith, remove_chunk_by_address-Slots l p pos h.1)

pub cover-remove_chunk_by_address :
    (l : List Chunk) (p a : ℕ)
    → OnSome (λ r. cover l a ≡ cover r.1 a + covers r.0 a) (remove_chunk_by_address l p)
unfolding remove_chunk_by_address
cover-remove_chunk_by_address [] p a = tt
cover-remove_chunk_by_address (x ∷ l) p a = ground (arith, cover-remove_chunk_by_address l p a)
