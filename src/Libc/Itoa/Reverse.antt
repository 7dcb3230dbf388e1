-- ===== src/Libc/Itoa/Reverse.antt =====
-- `reverse` in place against the reversal of a list.
use amethyst_os_old.Base.{
  ℕ, zero, suc, ◌+◌, ◌-◌, ◌≤◌, ◌<◌, ◌≡◌, refl, ap₂, ◌∙◌, ◌&&◌, List, [], ◌∷◌, ◌++◌, arith, ◌==◌,
  ltb, leb, if◌then◌else◌, get_or, set, length, length-append, length-set, Bool-cases, inl, inr,
}
use amethyst_os_old.Libc.Number.{reverse_onto}
use amethyst_os_old.Libc.Itoa.{swap, reverse_loop, reverse}

get_or-set :
    (l : List ℕ) (i j v : ℕ)
    → i < length l
    → get_or (set l i v) j 0 ≡ (if i == j then v else get_or l j 0)
get_or-set [] i j v lt = absurd (omega arith)
get_or-set (x ∷ l) zero zero v lt = refl
get_or-set (x ∷ l) zero (suc j) v lt = ground arith
get_or-set (x ∷ l) (suc i) zero v lt = ground arith
get_or-set (x ∷ l) (suc i) (suc j) v lt = ground (arith, get_or-set l i j v)

get_or-swap :
    (start end i : ℕ) (l : List ℕ)
    → start < length l
    → end < length l
    → get_or (swap start end l) i 0
      ≡ (if end == i then get_or l start 0 else if start == i then get_or l end 0 else get_or l i 0)
unfolding swap
get_or-swap start end i l hs he =
    let first = get_or-set l start i (get_or l end 0) hs in
    let second =
      get_or-set (set l start (get_or l end 0)) end i (get_or l start 0)
        (omega (arith, length-set l start (get_or l end 0))) in
    ground (arith, first, second)

length-swap : (start end : ℕ) (l : List ℕ) → length (swap start end l) ≡ length l
unfolding swap
length-swap start end l =
    length-set (set l start (get_or l end 0)) end (get_or l start 0)
    ∙ length-set l start (get_or l end 0)

length-reverse_loop :
    (fuel start end : ℕ) (l : List ℕ) → length (reverse_loop fuel start end l) ≡ length l
unfolding reverse_loop
length-reverse_loop zero start end l = refl
length-reverse_loop (suc fuel) start end l = ground (
  arith,
  length-reverse_loop fuel (start + 1) (end - 1) (swap start end l),
  length-swap start end l,
)

-- Nothing is left to mirror.
mirror_none :
    (start end i : ℕ) (l : List ℕ)
    → end ≤ start
    → get_or l i 0
      ≡ (if leb start i && leb i end then get_or l (start + end - i) 0 else get_or l i 0)
mirror_none start end i l le = ground arith

-- Swapping the ends, and mirroring what is between them.
mirror_swap :
    (start end i : ℕ) (l : List ℕ)
    → start < end
    → end < length l
    → (if leb (start + 1) i && leb i (end - 1)
        then get_or (swap start end l) (start + 1 + (end - 1) - i) 0
        else get_or (swap start end l) i 0)
      ≡ (if leb start i && leb i end then get_or l (start + end - i) 0 else get_or l i 0)
mirror_swap start end i l lt he = ground (
  arith,
  get_or-swap start end i l (omega arith) he,
  get_or-swap start end (start + end - i) l (omega arith) he,
)

-- The loop mirrors the elements from `start` to `end`, and leaves all others.
get_or-reverse_loop :
    (fuel start end i : ℕ) (l : List ℕ)
    → end < length l
    → end ≤ start + fuel
    → get_or (reverse_loop fuel start end l) i 0
      ≡ (if leb start i && leb i end then get_or l (start + end - i) 0 else get_or l i 0)
unfolding reverse_loop
get_or-reverse_loop zero start end i l he enough = mirror_none start end i l (omega arith)
get_or-reverse_loop (suc fuel) start end i l he enough = elim (Bool-cases (ltb start end)) [
  | inr e ↦ rw e (mirror_none start end i l (ground arith))
  | inl e ↦
      let s = swap start end l in
      let apart : start < end = ground arith in
      rw e (
        get_or-reverse_loop fuel (start + 1) (end - 1) i s (omega (arith, length-swap start end l))
          (omega arith)
        ∙ mirror_swap start end i l apart he)
]

get_or-cons :
    (x : ℕ) (l : List ℕ) (i : ℕ) → get_or (x ∷ l) i 0 ≡ (if i == 0 then x else get_or l (i - 1) 0)
get_or-cons x l zero = refl
get_or-cons x l (suc i) = ground arith

get_or-reverse_onto :
    (l out : List ℕ) (i : ℕ)
    → get_or (reverse_onto l out) i 0
      ≡ (if ltb i (length l) then get_or l (length l - 1 - i) 0 else get_or out (i - length l) 0)
unfolding reverse_onto
get_or-reverse_onto [] out i = ground arith
get_or-reverse_onto (x ∷ l) out i = ground (
  arith,
  get_or-reverse_onto l (x ∷ out) i,
  get_or-cons x out (i - length l),
  get_or-cons x l (length l - i),
)

get_or-append :
    (l out : List ℕ) (i : ℕ)
    → get_or (l ++ out) i 0
      ≡ (if ltb i (length l) then get_or l i 0 else get_or out (i - length l) 0)
get_or-append [] out i = ground arith
get_or-append (x ∷ l) out zero = ground arith
get_or-append (x ∷ l) out (suc i) = ground (arith, get_or-append l out i)

length-reverse_onto : (l out : List ℕ) → length (reverse_onto l out) ≡ length l + length out
unfolding reverse_onto
length-reverse_onto [] out = omega arith
length-reverse_onto (x ∷ l) out = omega (arith, length-reverse_onto l (x ∷ out))

same_elements :
    (l m : List ℕ) → length l ≡ length m → ((i : ℕ) → get_or l i 0 ≡ get_or m i 0) → l ≡ m
same_elements [] [] e h = refl
same_elements [] (y ∷ m) e h = absurd (omega arith)
same_elements (x ∷ l) [] e h = absurd (omega arith)
same_elements (x ∷ l) (y ∷ m) e h = ap₂ ◌∷◌ (h 0) (same_elements l m (omega arith) (λ i. h (suc i)))

mirrored :
    (l rest : List ℕ) (i : ℕ)
    → 0 < length l
    → get_or (reverse_loop (length l) 0 (length l - 1) (l ++ rest)) i 0
      ≡ get_or (reverse_onto l rest) i 0
mirrored l rest i some_left =
    let n = length l in
    ground (
      arith,
      get_or-reverse_loop n 0 (n - 1) i (l ++ rest) (omega (arith, length-append l rest))
          (omega arith),
      get_or-append l rest i,
      get_or-append l rest (0 + (n - 1) - i),
      get_or-reverse_onto l rest i,
    )

get_or-reversed :
    (l rest : List ℕ) (i : ℕ)
    → get_or (reverse_loop (length l) 0 (length l - 1) (l ++ rest)) i 0
      ≡ get_or (reverse_onto l rest) i 0
unfolding reverse_loop reverse_onto
get_or-reversed [] rest i = refl
get_or-reversed (x ∷ l) rest i = mirrored (x ∷ l) rest i (omega arith)

-- `reverse` turns the first `length l` bytes of a buffer round, and leaves those behind them.
pub reverse-append : (l rest : List ℕ) → reverse (l ++ rest) (length l) ≡ reverse_onto l rest
unfolding reverse
reverse-append l rest =
    let n = length l in
    same_elements (reverse_loop n 0 (n - 1) (l ++ rest)) (reverse_onto l rest)
      (length-reverse_loop n 0 (n - 1) (l ++ rest)
        ∙ omega (arith, length-append l rest, length-reverse_onto l rest))
      (get_or-reversed l rest)
