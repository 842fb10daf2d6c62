-- ===== src/Prelude/Table.antt =====
-- A property of every number below a bound, checked by evaluation.
use Prim.Native.Nat.{ℕ, zero, suc, ◌<◌}
use mathlib.Core.Path.{◌≡◌}
use mathlib.Core.Bool.{Bool, true, ◌&&◌}
use native.Mathlib.Omega.{arith}

unfoldable pub all_below : ℕ → (ℕ → Bool) → Bool
all_below zero test = true
all_below (suc bound) test = all_below bound (λ k. test (suc k)) && test zero

pub all_below_sound :
    (bound : ℕ) (test : ℕ → Bool) (k : ℕ) → all_below bound test ≡ true → k < bound → test k ≡ true
unfolding all_below
all_below_sound zero test k checked h = absurd (omega arith)
all_below_sound (suc bound) test zero checked h = ground arith
all_below_sound (suc bound) test (suc k) checked h =
    all_below_sound bound (λ j. test (suc j)) k (ground arith) (omega arith)
