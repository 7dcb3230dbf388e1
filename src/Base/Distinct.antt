-- ===== src/Base/Distinct.antt =====
-- Numbers without repetition: below `n` there are at most `n` of them.
use amethyst_os_old.Base.{
  ℕ, zero, suc, ◌+◌, ◌≤◌, ◌<◌, ◌≡◌, ◌≢◌, arith, List, [], ◌∷◌, length, All, true, ◌==◌,
  if◌then◌else◌, Bool-cases, inl, inr,
}

abbrev pub Distinct : List ℕ → Type 0
Distinct [] = Unit
Distinct (x ∷ l) = All (λ y. x ≢ y) l × Distinct l

-- The list without the first `x`.
remove : ℕ → List ℕ → List ℕ
remove x [] = []
remove x (y ∷ l) = let rest = remove x l in if x == y then l else y ∷ rest

length-remove : (x : ℕ) (l : List ℕ) → length l ≤ 1 + length (remove x l)
unfolding remove
length-remove x [] = omega arith
length-remove x (y ∷ l) = elim (Bool-cases (x == y)) [
  | inl e ↦ rw e (omega arith)
  | inr e ↦ rw e (omega (arith, length-remove x l))
]

remove-All {ℓ} : (P : ℕ → Type ℓ) (x : ℕ) (l : List ℕ) → All P l → All P (remove x l)
unfolding remove
remove-All P x [] h = h
remove-All P x (y ∷ l) h = elim (Bool-cases (x == y)) [
  | inl e ↦ rw e h.1
  | inr e ↦ rw e (h.0, remove-All P x l h.1)
]

remove-Distinct : (x : ℕ) (l : List ℕ) → Distinct l → Distinct (remove x l)
unfolding remove
remove-Distinct x [] h = h
remove-Distinct x (y ∷ l) h = elim (Bool-cases (x == y)) [
  | inl e ↦ rw e h.1
  | inr e ↦ rw e (remove-All (λ z. y ≢ z) x l h.0, remove-Distinct x l h.1)
]

others-below :
    (n y : ℕ) (l : List ℕ)
    → n == y ≡ true
    → All (λ z. y ≢ z) l
    → All (λ x. x < suc n) l
    → All (λ x. x < n) l
others-below n y [] e h k = tt
others-below n y (z ∷ l) e h k =
    let other = h.0 in let small = k.0 in (ground arith, others-below n y l e h.1 k.1)

-- The greatest number below `suc n` is gone.
remove-below :
    (n : ℕ) (l : List ℕ) → Distinct l → All (λ x. x < suc n) l → All (λ x. x < n) (remove n l)
unfolding remove
remove-below n [] h k = tt
remove-below n (y ∷ l) h k = elim (Bool-cases (n == y)) [
  | inl e ↦ rw e (others-below n y l e h.0 k.1)
  | inr e ↦
      let small = k.0 in let first : y < n = ground arith in rw e (first, remove-below n l h.1 k.1)
]

pub length-Distinct : (n : ℕ) (l : List ℕ) → Distinct l → All (λ x. x < n) l → length l ≤ n
length-Distinct zero [] h k = omega arith
length-Distinct zero (x ∷ l) h k = absurd (omega (arith, k.0))
length-Distinct (suc n) l h k =
    let rest = length-Distinct n (remove n l) (remove-Distinct n l h) (remove-below n l h k) in
    omega (arith, rest, length-remove n l)
