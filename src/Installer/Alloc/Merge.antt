-- ===== src/Installer/Alloc/Merge.antt =====
-- What merging does to the blocks of a table: the bytes that it covers, and the slots in use.
use amethyst_os_old.Base.{
  ℕ, zero, suc, ◌+◌, ◌^◌, ◌≤◌, ◌<◌, ◌≡◌, ◌≢◌, ◌⊎◌, refl, inl, inr, none, some, List, [], ◌∷◌, arith,
  ◌==◌, if◌then◌else◌, add32, set, get_elem?, length, All, OnSome, Option-cases, Bool-cases,
}
use amethyst_os_old.Kernel.Alloc.{Chunk}
use amethyst_os_old.Kernel.Alloc.Cover.{covers, cover, IsBlock, IsSlot, Slots}
use amethyst_os_old.Installer.Alloc.{find_neighbour}

-- The chunk `m` is `x` and `c` together, which lie side by side.
abbrev pub Joins : Chunk → Chunk → Chunk → Type 0
Joins x c m =
    (add32 x.start x.size ≡ c.start) × (m.start ≡ x.start) × (m.size ≡ add32 x.size c.size)
    ⊎ (add32 c.start c.size ≡ x.start) × (m.start ≡ c.start) × (m.size ≡ add32 c.size x.size)

abbrev pub Apart : Chunk → Chunk → Type 0
Apart x c = (add32 x.start x.size ≢ c.start) × (add32 c.start c.size ≢ x.start)

abbrev pub Found : Chunk → List Chunk → ℕ × Chunk → Type 0
Found c l (i, m) = (x : Chunk) × (get_elem? l i ≡ some x) × Joins x c m

find_neighbour-OnSome : (c : Chunk) (l : List Chunk) → OnSome (Found c l) (find_neighbour c l)
unfolding find_neighbour
find_neighbour-OnSome c [] = tt
find_neighbour-OnSome c (x ∷ l) = elim (Bool-cases (add32 x.start x.size == c.start)) [
  | inl p ↦ rw p (x, refl, inl (ground arith, refl, refl))
  | inr p ↦ elim (Bool-cases (add32 c.start c.size == x.start)) [
    | inl q ↦ rw (p, q) (x, refl, inr (ground arith, refl, refl))
    | inr q ↦ elim (Option-cases (find_neighbour c l)) [
      | inl e ↦ rw (p, q, e) tt
      | inr (r, e) ↦ rw (p, q, e) (rw e at (find_neighbour-OnSome c l))
    ]
  ]
]

pub find_neighbour-Found :
    (c : Chunk) (l : List Chunk) (r : ℕ × Chunk) → find_neighbour c l ≡ some r → Found c l r
find_neighbour-Found c l r e = rw e at (find_neighbour-OnSome c l)

pub find_neighbour-Apart :
    (c : Chunk) (l : List Chunk) → find_neighbour c l ≡ none → All (λ x. Apart x c) l
unfolding find_neighbour
find_neighbour-Apart c [] e = tt
find_neighbour-Apart c (x ∷ l) e = ground (arith, find_neighbour-Apart c l)

pub get_elem?-set :
    (l : List Chunk) (i j : ℕ) (v : Chunk)
    → i < length l
    → get_elem? (set l i v) j ≡ (if i == j then some v else get_elem? l j)
get_elem?-set [] i j v lt = absurd (omega arith)
get_elem?-set (x ∷ l) zero zero v lt = refl
get_elem?-set (x ∷ l) zero (suc j) v lt = ground arith
get_elem?-set (x ∷ l) (suc i) zero v lt = ground arith
get_elem?-set (x ∷ l) (suc i) (suc j) v lt = ground (arith, get_elem?-set l i j v)

pub get_elem?-lt : (l : List Chunk) (i : ℕ) (x : Chunk) → get_elem? l i ≡ some x → i < length l
get_elem?-lt [] i x e = absurd (cc)
get_elem?-lt (y ∷ l) zero x e = omega arith
get_elem?-lt (y ∷ l) (suc i) x e = omega (arith, get_elem?-lt l i x e)

pub cover-set :
    (l : List Chunk) (i a : ℕ) (x v : Chunk)
    → get_elem? l i ≡ some x
    → cover (set l i v) a + covers x a ≡ cover l a + covers v a
cover-set [] i a x v e = absurd (cc)
cover-set (y ∷ l) zero a x v e = ground arith
cover-set (y ∷ l) (suc i) a x v e = omega (arith, cover-set l i a x v e)

-- The number of slots that hold a block.
abbrev pub used : List Chunk → ℕ
used [] = 0
used (x ∷ l) = (if x.size == 0 then 0 else 1) + used l

pub used-le-length : (l : List Chunk) → used l ≤ length l
used-le-length [] = omega arith
used-le-length (x ∷ l) = ground (arith, used-le-length l)

pub used-set :
    (l : List Chunk) (i : ℕ) (x v : Chunk)
    → get_elem? l i ≡ some x
    → used (set l i v) + (if x.size == 0 then 0 else 1) ≡ used l + (if v.size == 0 then 0 else 1)
used-set [] i x v e = absurd (cc)
used-set (y ∷ l) zero x v e = ground arith
used-set (y ∷ l) (suc i) x v e = omega (arith, used-set l i x v e)

module _ (base limit : ℕ) where
  pub set-Slots :
      (l : List Chunk) (i : ℕ) (v : Chunk)
      → IsSlot base limit v
      → Slots base limit l
      → Slots base limit (set l i v)
  set-Slots [] i v s h = tt
  set-Slots (x ∷ l) zero v s h = (s, h.1)
  set-Slots (x ∷ l) (suc i) v s h = (h.0, set-Slots l i v s h.1)

  pub get-IsSlot :
      (l : List Chunk) (i : ℕ) (x : Chunk)
      → Slots base limit l
      → get_elem? l i ≡ some x
      → IsSlot base limit x
  get-IsSlot [] i x h e = absurd (cc)
  get-IsSlot (y ∷ l) zero x h e = ground arith
  get-IsSlot (y ∷ l) (suc i) x h e = get-IsSlot l i x h.1 e

  -- Joining a block to a slot: both are blocks, and what they cover together.
  pub Joins-IsBlock :
      (x c m : Chunk)
      → 0 < base
      → limit < 2 ^ 32
      → IsSlot base limit x
      → IsBlock base limit c
      → Joins x c m
      → IsBlock base limit x
        × IsBlock base limit m
        × ((a : ℕ) → covers m a ≡ covers x a + covers c a)
  Joins-IsBlock x c m low high s b j = (ground arith, ground arith, λ a. ground arith)
