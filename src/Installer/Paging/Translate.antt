-- ===== src/Installer/Paging/Translate.antt =====
-- Which physical address the tables give a virtual one.
use amethyst_os_old.Base.{
  ℕ, zero, suc, ◌+◌, ◌*◌, ◌/◌, ◌%◌, ◌^◌, ◌≤◌, ◌<◌, ◌≡◌, ◌≢◌, inl, inr, refl, sym, ap, ap₂, ◌&&◌,
  ◌∙◌, true, Bool-cases, Option, none, some, List, [], ◌∷◌, arith, ◌==◌, if◌then◌else◌, length,
  length-set, get_elem?, set, for_to,
}
use amethyst_os_old.Installer.Paging.{Page, Tables, page_table_size, page_size, fill, paging_init}

-- What the entries of the directory and of the page table that it points to make of an address. The
-- only page table in reach is the one at `kernel`.
abbrev pub walk : ℕ → ℕ → Option Page → Option Page → Option ℕ
walk kernel v none p = none
walk kernel v (some d) none = none
walk kernel v (some d) (some p) =
    if (d.present && d.address * page_size == kernel) && p.present
    then some (p.address * page_size + v % page_size)
    else none

-- The translation of the processor.
abbrev pub translate : ℕ → Tables → ℕ → Option ℕ
translate kernel t v =
    walk kernel v (get_elem? t.directory (v / (page_table_size * page_size)))
      (get_elem? t.kernel (v / page_size % page_table_size))

set_here :
    {A : Type 0} (l : List A) (i : ℕ) (a : A) → i < length l → get_elem? (set l i a) i ≡ some a
set_here [] i a lt = absurd (omega arith)
set_here (x ∷ l) zero a lt = refl
set_here (x ∷ l) (suc i) a lt = set_here l i a (omega arith)

set_there :
    {A : Type 0} (l : List A) (i j : ℕ) (a : A) → i ≢ j → get_elem? (set l i a) j ≡ get_elem? l j
set_there [] i j a ne = refl
set_there (x ∷ l) zero zero a ne = absurd (ne refl)
set_there (x ∷ l) zero (suc j) a ne = refl
set_there (x ∷ l) (suc i) zero a ne = refl
set_there (x ∷ l) (suc i) (suc j) a ne = set_there l i j a (λ e. ne (ap suc e))

-- The entry is present, and has an address.
abbrev pub Maps : ℕ → Option Page → Type 0
Maps address o = (p : Page) × (o ≡ some p) × (p.present ≡ true) × (p.address ≡ address)

module _ (address : ℕ → ℕ) (empty : Page) where
  length-fill : (n : ℕ) (t : List Page) → length (for_to n (fill address empty) t) ≡ length t
  length-fill zero t = refl
  length-fill (suc n) t = length-set (for_to n (fill address empty) t) n _ ∙ length-fill n t

  fill_all :
      (n i : ℕ) (t : List Page)
      → n ≤ length t
      → i < n
      → Maps (address i % 2 ^ 20) (get_elem? (for_to n (fill address empty) t) i)
  fill_all zero i t le lt = absurd (omega arith)
  fill_all (suc n) i t le lt = elim (Bool-cases (i == n)) [
    | inl e ↦
        let same : n ≡ i = ground arith in
        (
          _,
          ap (get_elem? (for_to (suc n) (fill address empty) t)) (sym same)
              ∙ set_here (for_to n (fill address empty) t) n _ (omega (arith, length-fill n t)),
          refl,
          ap (λ k. address k % 2 ^ 20) same,
        )
    | inr ne ↦
        let (p, found, on, at) = fill_all n i t (omega arith) (ground arith) in
        (p, set_there (for_to n (fill address empty) t) n i _ (ground arith) ∙ found, on, at)
  ]

translate_lem :
    (kernel : ℕ) (t : Tables) (v : ℕ)
    → kernel % page_size ≡ 0
    → kernel < 2 ^ 32
    → v < 2 ^ 32
    → Maps (kernel / 2 ^ 12 % 2 ^ 20) (get_elem? t.directory (v / (page_table_size * page_size)))
    → Maps
        (v / page_size % page_table_size % 2 ^ 20)
        (get_elem? t.kernel (v / page_size % page_table_size))
    → translate kernel t v ≡ some (v % 0x40_0000)
translate_lem kernel t v aligned low bound (d, found, on, at) (p, found', on', at') =
    let points : (d.address * page_size == kernel) ≡ true = ground (arith, at) in
    ap₂ (walk kernel v) found found' ∙ rw (on, points, on') (ap some (omega (arith, at')))

-- For tables of 1024 entries and a page table that is aligned and lies below 2 ^ 32, every virtual
-- address is mapped, to itself modulo 4 MiB.
pub paging_init_lem :
    (kernel : ℕ) (empty : Page) (t : Tables) (v : ℕ)
    → kernel % page_size ≡ 0
    → kernel < 2 ^ 32
    → length t.directory ≡ page_table_size
    → length t.kernel ≡ page_table_size
    → v < 2 ^ 32
    → translate kernel (paging_init kernel empty t) v ≡ some (v % 0x40_0000)
unfolding paging_init
paging_init_lem kernel empty t v aligned low size size' bound =
    translate_lem kernel (paging_init kernel empty t) v aligned low bound
      (fill_all (λ i. kernel / 2 ^ 12) empty page_table_size (v / (page_table_size * page_size))
        t.directory (omega (arith, size)) (omega arith))
      (fill_all (λ i. i) empty page_table_size (v / page_size % page_table_size) t.kernel
        (omega (arith, size')) (omega arith))
