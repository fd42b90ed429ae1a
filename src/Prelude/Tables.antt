-- ===== src/Prelude/Tables.antt =====
-- Facts about a small range of numbers, by evaluation at each of them.
use Prim.Native.Nat.{ℕ, zero, suc, ◌<◌}
use mathlib.Core.Path.{◌≡◌}
use mathlib.Core.Bool.{Bool, true, false}
use native.Mathlib.Omega.{arith}
use librtcx.Prelude.Tests.{if◌then◌else◌}

unfoldable pub passes : (ℕ → Bool) → ℕ → Bool
passes test zero = true
passes test (suc last) = let rest = passes test last in if test last then rest else false

pub of_passes :
    (test : ℕ → Bool) (bound k : ℕ) → passes test bound ≡ true → k < bound → test k ≡ true
unfolding passes
of_passes test zero k all below = absurd (omega arith)
of_passes test (suc last) k all below = ground (arith, of_passes test last k)
