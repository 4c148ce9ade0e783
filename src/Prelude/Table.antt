-- ===== src/Prelude/Table.antt =====
-- Checks over every value of a small range, by evaluation.
use Prim.Native.Nat.{ℕ, zero, suc, ◌<◌}
use mathlib.Core.Path.{◌≡◌}
use mathlib.Core.Bool.{Bool, true, ◌&&◌}
use native.Mathlib.Omega.{arith}

-- Whether a test passes on each number under a bound.
unfoldable pub all_below : ℕ → (ℕ → Bool) → Bool
all_below zero test = true
all_below (suc bound) test = all_below bound test && test bound

pub all_below_sound :
    (bound : ℕ) (test : ℕ → Bool) (value : ℕ)
    → all_below bound test ≡ true
    → value < bound
    → test value ≡ true
unfolding all_below
all_below_sound (suc bound) test value passed under =
    ground (arith, all_below_sound bound test value)
all_below_sound zero test value passed under = absurd (omega arith)
