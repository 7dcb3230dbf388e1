-- ===== src/Kernel/Alloc/Fits.antt =====
-- When the table operations succeed.
use amethyst_os_old.Base.{
  ℕ, suc, zero, ◌+◌, ◌-◌, ◌^◌, ◌≤◌, ◌<◌, ◌≡◌, ◌≢◌, ◌⊎◌, refl, ◌&&◌, none, some, List, [], ◌∷◌,
  arith, leb, ◌==◌, All, get_elem?, set, inl, inr, Option-cases, Bool-cases,
}
use amethyst_os_old.Kernel.Alloc.{
  Chunk, empty_chunk, insert_chunk, merge_scan, merge_chunk, shrink, remove_chunk_by_size,
  remove_chunk_by_address,
}
use amethyst_os_old.Kernel.Alloc.Cover.{covers, cover, IsBlock, Slots}

-- Every slot of the table is in use.
abbrev pub IsFull : List Chunk → Type 0
IsFull = All (λ x. (x.start ≢ 0) ⊎ (x.size ≢ 0))

-- No block of the table has `n` bytes.
abbrev pub Lacks : ℕ → List Chunk → Type 0
Lacks n = All (λ x. x.size < n)

pub insert_chunk_full : (c : Chunk) (l : List Chunk) → IsFull l → insert_chunk c l ≡ none
unfolding insert_chunk
insert_chunk_full c [] f = refl
insert_chunk_full c (x ∷ l) f = ground (arith, insert_chunk_full c l f.1)

pub IsFull-of_insert_chunk : (c : Chunk) (l : List Chunk) → insert_chunk c l ≡ none → IsFull l
unfolding insert_chunk
IsFull-of_insert_chunk c [] e = tt
IsFull-of_insert_chunk c (x ∷ l) e = ground (arith, IsFull-of_insert_chunk c l)

pub remove_chunk_by_size-Lacks :
    (l : List Chunk) (n : ℕ) → Lacks n l → remove_chunk_by_size l n ≡ none
unfolding remove_chunk_by_size
remove_chunk_by_size-Lacks [] n f = refl
remove_chunk_by_size-Lacks (x ∷ l) n f = ground (arith, remove_chunk_by_size-Lacks l n f.1)

pub Lacks-of_remove_chunk_by_size :
    (l : List Chunk) (n : ℕ) → remove_chunk_by_size l n ≡ none → Lacks n l
unfolding remove_chunk_by_size
Lacks-of_remove_chunk_by_size [] n e = tt
Lacks-of_remove_chunk_by_size (x ∷ l) n e = ground (arith, Lacks-of_remove_chunk_by_size l n)

pub covers-le-cover :
    (l : List Chunk) (i a : ℕ) (c : Chunk) → get_elem? l i ≡ some c → covers c a ≤ cover l a
covers-le-cover [] i a c e = cc
covers-le-cover (x ∷ l) zero a c e = ground arith
covers-le-cover (x ∷ l) (suc i) a c e = ground (arith, covers-le-cover l i a c e)

-- The slot that `insert_chunk` fills.
pub insert_chunk-get_elem? :
    (c : Chunk) (l l' : List Chunk)
    → insert_chunk c l ≡ some l'
    → (i : ℕ) × (get_elem? l' i ≡ some c)
unfolding insert_chunk
insert_chunk-get_elem? c [] l' e = cc
insert_chunk-get_elem? c (x ∷ l) l' e = elim (Bool-cases (x.start == 0 && x.size == 0)) [
  | inl t ↦ (0, ground arith)
  | inr t ↦ elim (Option-cases (insert_chunk c l)) [
    | inl e₁ ↦ absurd (ground arith)
    | inr (l₁, e₁) ↦ let (i, g) = insert_chunk-get_elem? c l l₁ e₁ in (suc i, ground arith)
  ]
]

-- It fills one slot, which was empty.
pub insert_chunk-set :
    (c : Chunk) (l l' : List Chunk)
    → insert_chunk c l ≡ some l'
    → (i : ℕ) × (x : Chunk) × (get_elem? l i ≡ some x) × (l' ≡ set l i c)
unfolding insert_chunk
insert_chunk-set c [] l' e = cc
insert_chunk-set c (x ∷ l) l' e = elim (Bool-cases (x.start == 0 && x.size == 0)) [
  | inl t ↦ (0, x, refl, ground arith)
  | inr t ↦ elim (Option-cases (insert_chunk c l)) [
    | inl e₁ ↦ absurd (ground arith)
    | inr (l₁, e₁) ↦ let (i, y, g, same) = insert_chunk-set c l l₁ e₁ in (suc i, y, g, ground arith)
  ]
]

-- `remove_chunk_by_size` shrinks one slot.
pub remove_chunk_by_size-set :
    (l : List Chunk) (n : ℕ) (r : Chunk × List Chunk)
    → remove_chunk_by_size l n ≡ some r
    → (i : ℕ) × (x : Chunk) × (get_elem? l i ≡ some x) × (n ≤ x.size) × (r.1 ≡ set l i (shrink x n))
unfolding remove_chunk_by_size
remove_chunk_by_size-set [] n r e = cc
remove_chunk_by_size-set (x ∷ l) n r e = elim (Bool-cases (leb n x.size)) [
  | inl t ↦ (0, x, refl, ground arith, ground arith)
  | inr t ↦ elim (Option-cases (remove_chunk_by_size l n)) [
    | inl e₁ ↦ absurd (ground arith)
    | inr (r₁, e₁) ↦
        let (i, y, g, le, same) = remove_chunk_by_size-set l n r₁ e₁ in
        (suc i, y, g, le, ground arith)
  ]
]

-- The sizes and places of what is left of a block.
pub shrink_lem :
    (x : Chunk) (n : ℕ)
    → x.start + x.size < 2 ^ 32
    → n ≤ x.size
    → 0 < (shrink x n).size
    → ((shrink x n).start ≡ x.start + n) × ((shrink x n).size + n ≡ x.size)
unfolding shrink
shrink_lem x n fits le left = ground arith

module _ (base limit : ℕ) (low : 0 < base) (high : limit < 2 ^ 32) where
  -- A block that overlaps no other is found by its address.
  pub remove_chunk_by_address_block :
      (l : List Chunk) (i : ℕ) (c : Chunk)
      → get_elem? l i ≡ some c
      → IsBlock base limit c
      → Slots base limit l
      → cover l c.start ≤ 1
      → (l' : List Chunk) × (remove_chunk_by_address l c.start ≡ some (c, l'))
  unfolding remove_chunk_by_address
  remove_chunk_by_address_block [] i c e b s one = absurd (cc)
  remove_chunk_by_address_block (x ∷ l) zero c e b s one = (empty_chunk ∷ l, ground arith)
  remove_chunk_by_address_block (x ∷ l) (suc i) c e b s one =
      let (l', r) = remove_chunk_by_address_block l i c e b s.1 (ground arith) in
      (x ∷ l', ground (arith, covers-le-cover l i c.start c e))

  -- The block that was just cut off fits back into the table.
  merge_after_cut :
      (l : List Chunk) (n : ℕ) (r : Chunk × List Chunk)
      → 0 < n
      → Slots base limit l
      → remove_chunk_by_size l n ≡ some r
      → (merge_scan r.0 r.1 ≢ none) ⊎ (insert_chunk r.0 r.1 ≢ none)
  unfolding remove_chunk_by_size shrink merge_scan insert_chunk
  merge_after_cut [] n r pos s e = absurd (cc)
  merge_after_cut (x ∷ l) n r pos s e = elim (Bool-cases (leb n x.size)) [
    | inl t ↦ elim (Bool-cases (x.size - n == 0)) [
      | inl z ↦ inr (ground arith)
      | inr z ↦ inl (ground arith)
    ]
    | inr t ↦ elim (Option-cases (remove_chunk_by_size l n)) [
      | inl e₁ ↦ absurd (ground arith)
      | inr (r₁, e₁) ↦ elim (merge_after_cut l n r₁ pos s.1 e₁) [
        | inl m ↦ inl (ground arith)
        | inr m ↦ inr (ground arith)
      ]
    ]
  ]

  pub merge_chunk_after_cut :
      (l : List Chunk) (n : ℕ) (r : Chunk × List Chunk)
      → 0 < n
      → Slots base limit l
      → remove_chunk_by_size l n ≡ some r
      → merge_chunk r.0 r.1 ≢ none
  unfolding merge_chunk
  merge_chunk_after_cut l n r pos s e = ground (arith, merge_after_cut l n r pos s e)
