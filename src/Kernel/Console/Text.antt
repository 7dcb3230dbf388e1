-- ===== src/Kernel/Console/Text.antt =====
-- Texts that are printed one behind the other.
use amethyst_os_old.Base.{
  ℕ, ◌≡◌, ◌≢◌, refl, List, [], ◌∷◌, ◌++◌, arith, ◌==◌, All, Bool-cases, inl, inr,
}
use amethyst_os_old.Kernel.Console.{Console, putchar, puts, sign_extend}

-- No zero byte ends the text.
abbrev pub NoZero : List ℕ → Type 0
NoZero = All (λ c. c ≢ 0)

pub puts-append : (s r : List ℕ) (t : Console) → NoZero s → puts (s ++ r) t ≡ puts r (puts s t)
unfolding puts
puts-append [] r t h = refl
puts-append (c ∷ s) r t h = elim (Bool-cases (c == 0)) [
  | inl e ↦ absurd (h.0 (ground arith))
  | inr e ↦ rw e (puts-append s r (putchar (sign_extend c) t) h.1)
]
