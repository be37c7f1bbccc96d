-- ===== src/Base/Table.antt =====
-- Checking every value of a small range by evaluation.
use Prim.Native.Nat.{ℕ, zero, suc, ◌<◌}
use mathlib.Core.Path.{◌≡◌}
use mathlib.Core.Bool.{Bool, true, false}
use native.Mathlib.Omega.{arith}
use prismatic_os.Base.Tests.{if◌then◌else◌}

-- Do the numbers under the bound pass the test?
unfoldable pub checks : (bound : ℕ) (test : ℕ → Bool) → Bool
checks zero test = true
checks (suc k) test = let rest = checks k test in if test k then rest else false

pub checks_lem :
    (bound : ℕ) (test : ℕ → Bool) (i : ℕ) → checks bound test ≡ true → i < bound → test i ≡ true
unfolding checks
checks_lem zero test i table small = ground arith
checks_lem (suc k) test i table small = ground (arith, checks_lem k test i)
