-- ===== src/Kernel/Alloc/Init.antt =====
-- The one block that `alloc_init` makes.
use amethyst_os_old.Base.{ℕ, zero, suc, ◌<◌, ◌≡◌, some, List, [], ◌∷◌, map, arith, get_elem?, set}
use amethyst_os_old.Kernel.Alloc.{Chunk, Heap, empty_chunk, alloc_init}

cleared_empty :
    (l : List Chunk) (i : ℕ) (x : Chunk)
    → get_elem? (map (λ y. empty_chunk) l) i ≡ some x
    → x.size ≡ 0
cleared_empty [] i x e = absurd (cc)
cleared_empty (y ∷ l) zero x e = ground arith
cleared_empty (y ∷ l) (suc i) x e = cleared_empty l i x e

first_only :
    (c : Chunk) (l : List Chunk) (i : ℕ) (x : Chunk)
    → get_elem? (set (map (λ y. empty_chunk) l) 0 c) i ≡ some x
    → 0 < x.size
    → x ≡ c
first_only c [] i x e size = absurd (cc)
first_only c (y ∷ l) zero x e size = ground arith
first_only c (y ∷ l) (suc i) x e size = absurd (omega (arith, cleared_empty l i x e))

pub alloc_init-get_elem? :
    (start cap : ℕ) (h : Heap) (i : ℕ) (x : Chunk)
    → get_elem? (alloc_init start cap h).freed i ≡ some x
    → 0 < x.size
    → x ≡ record { start = start; size = cap }
unfolding alloc_init
alloc_init-get_elem? start cap h i x e size =
    first_only (record { start = start; size = cap }) h.freed i x e size
