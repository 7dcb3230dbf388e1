-- ===== src/Installer/Alloc/Coalesced.antt =====
-- After a chunk is freed no two free chunks are neighbours.
use amethyst_os_old.Base.{
  ℕ, zero, suc, ◌+◌, ◌^◌, ◌≤◌, ◌<◌, ◌≡◌, ◌≢◌, refl, ◌∙◌, inl, inr, some, List, [], ◌∷◌, arith, ◌==◌,
  if◌then◌else◌, set, get_or, get_elem?, length-set, All, Option-cases,
}
use native.Mathlib.Decide.{ℕ_discrete}
use amethyst_os_old.Kernel.Alloc.{Chunk, empty_chunk}
use amethyst_os_old.Kernel.Alloc.Cover.{covers, cover, IsBlock, Slots}
use amethyst_os_old.Installer.Alloc.{find_neighbour, merge_remove_chunk}
use amethyst_os_old.Installer.Alloc.Merge.{
  Joins, Apart, find_neighbour-Found, find_neighbour-Apart, get_elem?-set, get_elem?-lt, cover-set,
  used, used-set, set-Slots, get-IsSlot, Joins-IsBlock,
}

no_self : {base limit : ℕ} (c m : Chunk) → IsBlock base limit c → limit < 2 ^ 32 → ¬ Joins c c m
no_self c m b high j = ground arith

get_or-get_elem? :
    (l : List Chunk) (i : ℕ) (x : Chunk) → get_elem? l i ≡ some x → get_or l i empty_chunk ≡ x
get_or-get_elem? [] i x e = absurd (cc)
get_or-get_elem? (y ∷ l) zero x e = ground arith
get_or-get_elem? (y ∷ l) (suc i) x e = get_or-get_elem? l i x e

covers_empty : (a : ℕ) → covers empty_chunk a ≡ 0
covers_empty a = ground arith

-- No block ends where another begins, but for slot `k`, which may touch others.
abbrev pub CoalescedBut : ℕ → List Chunk → Type 0
CoalescedBut k l =
    (i j : ℕ) (x y : Chunk)
    → i ≢ k
    → j ≢ k
    → get_elem? l i ≡ some x
    → get_elem? l j ≡ some y
    → 0 < x.size
    → 0 < y.size
    → x.start + x.size ≢ y.start

-- No block ends where another begins.
abbrev pub IsCoalesced : List Chunk → Type 0
IsCoalesced l =
    (i j : ℕ) (x y : Chunk)
    → get_elem? l i ≡ some x
    → get_elem? l j ≡ some y
    → 0 < x.size
    → 0 < y.size
    → x.start + x.size ≢ y.start

pub Apart-get_elem? :
    (c : Chunk) (l : List Chunk) (i : ℕ) (x : Chunk)
    → All (λ y. Apart y c) l
    → get_elem? l i ≡ some x
    → Apart x c
Apart-get_elem? c [] i x h e = absurd (cc)
Apart-get_elem? c (y ∷ l) zero x h e = ground (arith, h.0)
Apart-get_elem? c (y ∷ l) (suc i) x h e = Apart-get_elem? c l i x h.1 e

module _ (base limit : ℕ) (low : 0 < base) (high : limit < 2 ^ 32) where
  -- A table with a block in slot `k`, which is the only one that may touch others.
  pub record Pending (k : ℕ) (c : Chunk) (l : List Chunk) : Type 0 where
    pub slots : Slots base limit l
    pub at : get_elem? l k ≡ some c
    pub block : IsBlock base limit c
    pub others : CoalescedBut k l

  -- One round: slot `i` takes over the block of slot `k`.
  abbrev join : ℕ → ℕ → Chunk → List Chunk → List Chunk
  join k i m l = set (set l i m) k empty_chunk

  module _ (k i : ℕ) (c m x : Chunk) (l : List Chunk) (p : Pending k c l)
      (e : get_elem? l i ≡ some x) (j : Joins x c m) where
    joined :
        IsBlock base limit x
        × IsBlock base limit m
        × ((a : ℕ) → covers m a ≡ covers x a + covers c a)
    joined =
        Joins-IsBlock base limit x c m low high (get-IsSlot base limit l i x p.slots e) p.block j

    distinct : i ≢ k
    distinct q =
        let same : get_elem? l k ≡ some x = rw q at e in
        let eq : x ≡ c = ground (arith, p.at) in no_self c m p.block high (rw eq at j)

    get_elem?-join :
        (n : ℕ)
        → get_elem? (join k i m l) n
          ≡ (if k == n then some empty_chunk else if i == n then some m else get_elem? l n)
    get_elem?-join n = ground (
      arith,
      get_elem?-set (set l i m) k n empty_chunk
          (omega (arith, length-set l i m, get_elem?-lt l k c p.at)),
      get_elem?-set l i n m (get_elem?-lt l i x e),
    )

    at_k : get_elem? (set l i m) k ≡ some c
    at_k = ground (arith, get_elem?-set l i k m (get_elem?-lt l i x e), p.at, distinct)

    cover-join : (a : ℕ) → cover (join k i m l) a ≡ cover l a
    cover-join a = omega (
      arith,
      cover-set l i a x m e,
      cover-set (set l i m) k a c empty_chunk at_k,
      joined.2 a,
      covers_empty a,
    )

    used-join : used (join k i m l) + 1 ≡ used l
    used-join = ground (
      arith,
      used-set l i x m e,
      used-set (set l i m) k c empty_chunk at_k,
      joined.0,
      joined.1,
      p.block,
    )

    join-Pending : Pending i m (join k i m l)
    join-Pending = record {
      slots =
          set-Slots base limit (set l i m) k empty_chunk (inl (refl, refl))
            (set-Slots base limit l i m (inr joined.1) p.slots);
      at = ground (arith, get_elem?-join i, distinct);
      block = joined.1;
      others = λ a b y z na nb ey ez sy sz.
          ground (arith, get_elem?-join a, get_elem?-join b, p.others a b y z);
    }

  settled :
      (k : ℕ) (c : Chunk) (l : List Chunk) → Pending k c l → All (λ x. Apart x c) l → IsCoalesced l
  settled k c l p apart a b y z ey ez sy sz = elim (ℕ_discrete a k) [
    | yes q ↦ ground (arith, Apart-get_elem? c l b z apart ez, p.block, p.at)
    | no q ↦ elim (ℕ_discrete b k) [
      | yes r ↦ ground (
        arith,
        Apart-get_elem? c l a y apart ey,
        get-IsSlot base limit l a y p.slots ey,
        p.block,
        p.at,
      )
      | no r ↦ p.others a b y z q r ey ez sy sz
    ]
  ]

  -- With fuel for every block, the rounds end with no neighbours, and cover what was covered.
  pub merge_remove_chunk-IsCoalesced :
      (fuel k : ℕ) (c : Chunk) (l : List Chunk)
      → Pending k c l
      → used l ≤ fuel
      → Slots base limit (merge_remove_chunk fuel k l)
        × IsCoalesced (merge_remove_chunk fuel k l)
        × ((a : ℕ) → cover (merge_remove_chunk fuel k l) a ≡ cover l a)
  unfolding merge_remove_chunk
  merge_remove_chunk-IsCoalesced zero k c l p enough =
      absurd (ground (arith, used-set l k c empty_chunk p.at, p.block))
  merge_remove_chunk-IsCoalesced (suc fuel) k c l p enough =
      let here = get_or-get_elem? l k c p.at in
      elim (Option-cases (find_neighbour c l)) [
        | inl e ↦
            rw (here, e, merge_remove_chunk)
              (p.slots, settled k c l p (find_neighbour-Apart c l e), λ a. refl)
        | inr ((i, m), e) ↦
            let (x, ex, j) = find_neighbour-Found c l (i, m) e in
            let next = join-Pending k i c m x l p ex j in
            let fewer = used-join k i c m x l p ex j in
            let (s, done, same) =
              merge_remove_chunk-IsCoalesced fuel i m (join k i m l) next (omega (arith, fewer)) in
            rw (here, e, merge_remove_chunk)
              (s, done, λ a. same a ∙ cover-join k i c m x l p ex j a)
      ]
