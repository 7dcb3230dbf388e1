-- ===== src/Base/Table.antt =====
-- A property of every number below a bound, checked by evaluation.
use mathlib.Core.Bool.{Bool, true, ◌&&◌}
use mathlib.Core.Path.{◌≡◌}
use native.Mathlib.Omega.{arith}
use Prim.Native.Nat.{ℕ, zero, suc, ◌<◌}

-- Whether a test passes on 0, 1, …, `count` - 1.
unfoldable pub passes : (ℕ → Bool) → ℕ → Bool
passes test zero = true
passes test (suc count) = passes test count && test count

pub passes_sound :
    (test : ℕ → Bool) (count k : ℕ) → k < count → passes test count ≡ true → test k ≡ true
unfolding passes
passes_sound test zero k below all = absurd (omega arith)
passes_sound test (suc count) k below all = ground (arith, passes_sound test count k)
