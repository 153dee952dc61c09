-- ===== src/Base/Finite.antt =====
-- Tests of every number below a bound, by evaluation.
use algiz.Base.Tests.{if◌then◌else◌}
use Prim.Native.Nat.{ℕ, zero, suc, ◌<◌}
use mathlib.Core.Path.{◌≡◌}
use mathlib.Core.Bool.{Bool, true, false}
use native.Mathlib.Omega.{arith}

unfoldable pub passes : (ℕ → Bool) → ℕ → Bool
passes test zero = true
passes test (suc bound) = if test bound then passes test bound else false

pub passes-at :
    (test : ℕ → Bool) (bound i : ℕ) → i < bound → passes test bound ≡ true → test i ≡ true
unfolding passes
passes-at test zero i lt all = absurd (omega arith)
passes-at test (suc bound) i lt all = ground (arith, passes-at test bound i)
