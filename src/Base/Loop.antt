-- ===== src/Base/Loop.antt =====
-- The counted loop `for (i = 0; i < n; ++i) s = body(i, s)`.
use Prim.Native.Nat.{ℕ, zero, suc, ◌<◌}
use native.Mathlib.Omega.{arith}

abbrev pub for_to {ℓ} : {S : Type ℓ} → ℕ → (ℕ → S → S) → S → S
for_to zero body s = s
for_to (suc n) body s = body n (for_to n body s)

-- What every round keeps, the loop keeps.
pub for_to_inv {ℓ κ} :
    {S : Type ℓ} (P : S → Type κ) (n : ℕ) (body : ℕ → S → S) (s : S)
    → ((i : ℕ) (t : S) → i < n → P t → P (body i t))
    → P s
    → P (for_to n body s)
for_to_inv P zero body s keep h = h
for_to_inv P (suc n) body s keep h =
    keep n (for_to n body s) (omega arith)
      (for_to_inv P n body s (λ i t lt. keep i t (omega arith)) h)
