-- ===== src/Base/Bits.antt =====
-- Facts about bytes that a table shows: a test is run on each of the numbers below a bound.
use Prim.Native.Nat.{ℕ, zero, suc, ◌<◌}
use mathlib.Core.Path.{◌≡◌}
use mathlib.Core.Bool.{Bool, true, false}
use native.Mathlib.Omega.{arith}
use allsquare.Base.Tests.{if◌then◌else◌}

-- The test passes on the numbers below the bound.
unfoldable pub table : (ℕ → Bool) → ℕ → Bool
table test zero = true
table test (suc top) = if test top then table test top else false

pub table_entry :
    (test : ℕ → Bool) (bound entry : ℕ)
    → entry < bound
    → table test bound ≡ true
    → test entry ≡ true
unfolding table
table_entry test zero entry within passed = elim within [ ]
table_entry test (suc top) entry within passed = ground (arith, table_entry test top entry)
