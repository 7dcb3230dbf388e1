-- ===== src/Installer/Alloc/Gains.antt =====
-- What a freed chunk makes of the table of free chunks, merged or inserted.
use amethyst_os_old.Base.{
  ℕ, ◌+◌, ◌^◌, ◌<◌, ◌≡◌, ◌≢◌, inl, inr, none, some, List, arith, ◌==◌, if◌then◌else◌, set,
  get_elem?, length, length-set, All, Option-cases,
}
use amethyst_os_old.Kernel.Alloc.{Chunk, insert_chunk}
use amethyst_os_old.Kernel.Alloc.Cover.{covers, cover, IsBlock, Slots}
use amethyst_os_old.Kernel.Alloc.Facts.{inserted}
use amethyst_os_old.Kernel.Alloc.Fits.{insert_chunk-set}
use amethyst_os_old.Installer.Alloc.{find_neighbour, merge_remove_chunk, merge_chunk}
use amethyst_os_old.Installer.Alloc.Merge.{
  Joins, Apart, find_neighbour-Found, find_neighbour-Apart, get_elem?-set, get_elem?-lt, cover-set,
  used-le-length, set-Slots, get-IsSlot, Joins-IsBlock,
}
use amethyst_os_old.Installer.Alloc.Coalesced.{
  IsCoalesced, Pending, Apart-get_elem?, merge_remove_chunk-IsCoalesced,
}

module _ (base limit : ℕ) (low : 0 < base) (high : limit < 2 ^ 32) where
  set-Pending :
      (c m x : Chunk) (l : List Chunk) (i : ℕ)
      → IsBlock base limit c
      → Slots base limit l
      → IsCoalesced l
      → get_elem? l i ≡ some x
      → Joins x c m
      → Pending base limit low high i m (set l i m)
  set-Pending c m x l i b s coalesced e j =
      let (bx, bm, both) =
        Joins-IsBlock base limit x c m low high (get-IsSlot base limit l i x s e) b j in
      record {
        slots = set-Slots base limit l i m (inr bm) s;
        at = ground (arith, get_elem?-set l i i m (get_elem?-lt l i x e));
        block = bm;
        others = λ a a' y z na nb ey ez sy sz. ground (
          arith,
          get_elem?-set l i a m (get_elem?-lt l i x e),
          get_elem?-set l i a' m (get_elem?-lt l i x e),
          coalesced a a' y z,
        );
      }

  -- What a freed block makes of the free ones: they cover its bytes too, and none are neighbours.
  abbrev pub Gains : List Chunk → Chunk → List Chunk → Type 0
  Gains l c l' =
      Slots base limit l' × IsCoalesced l' × ((a : ℕ) → cover l' a ≡ cover l a + covers c a)

  pub merge_chunk-Gains :
      (c : Chunk) (l l' : List Chunk)
      → IsBlock base limit c
      → Slots base limit l
      → IsCoalesced l
      → merge_chunk c l ≡ some l'
      → Gains l c l'
  unfolding merge_chunk
  merge_chunk-Gains c l l' b s coalesced e = elim (Option-cases (find_neighbour c l)) [
    | inl e₁ ↦ absurd (ground arith)
    | inr ((i, m), e₁) ↦
        let (x, ex, j) = find_neighbour-Found c l (i, m) e₁ in
        let (bx, bm, both) =
          Joins-IsBlock base limit x c m low high (get-IsSlot base limit l i x s ex) b j in
        let t = set l i m in
        let (s', done, same) =
          merge_remove_chunk-IsCoalesced base limit low high (length l) i m t
            (set-Pending c m x l i b s coalesced ex j)
            (omega (arith, used-le-length t, length-set l i m)) in
        let result : merge_remove_chunk (length l) i t ≡ l' = ground arith in
        let gains : Gains l c (merge_remove_chunk (length l) i t) =
          (s', done, λ a. omega (arith, same a, cover-set l i a x m ex, both a)) in
        rw result at gains
  ]

  insert-Apart :
      (a a' : ℕ) (y z c : Chunk) (l : List Chunk) (i : ℕ)
      → IsBlock base limit c
      → Slots base limit l
      → IsCoalesced l
      → All (λ x. Apart x c) l
      → (if i == a then some c else get_elem? l a) ≡ some y
      → (if i == a' then some c else get_elem? l a') ≡ some z
      → 0 < y.size
      → 0 < z.size
      → y.start + y.size ≢ z.start
  insert-Apart a a' y z c l i b s coalesced apart ey ez sy sz = ground (
    arith,
    coalesced a a' y z,
    Apart-get_elem? c l a y apart,
    Apart-get_elem? c l a' z apart,
    get-IsSlot base limit l a y s,
  )

  pub insert_chunk-Gains :
      (c : Chunk) (l l' : List Chunk)
      → IsBlock base limit c
      → Slots base limit l
      → IsCoalesced l
      → merge_chunk c l ≡ none
      → insert_chunk c l ≡ some l'
      → Gains l c l'
  unfolding merge_chunk
  insert_chunk-Gains c l l' b s coalesced e e' =
      let apart : All (λ x. Apart x c) l = find_neighbour-Apart c l (ground arith) in
      let (i, x, ex, same) = insert_chunk-set c l l' e' in
      let (slots, covered) = inserted base limit low high c l l' b s e' in
      let at = λ (n : ℕ). get_elem?-set l i n c (get_elem?-lt l i x ex) in
      (
        slots,
        λ a a' y z ey ez sy sz.
            insert-Apart a a' y z c l i b s coalesced apart (rw (same, at a) at ey)
              (rw (same, at a') at ez) sy sz,
        covered,
      )
