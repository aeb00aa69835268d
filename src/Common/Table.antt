-- ===== src/Common/Table.antt =====
-- Facts about small numbers, by a table of a test's values.
use sockstats.Common.Tests.{if◌then◌else◌}
use Prim.Native.Nat.{ℕ, zero, suc, ◌<◌}
use mathlib.Core.Bool.{Bool, true, false}
use mathlib.Core.Path.{◌≡◌}
use native.Mathlib.Omega.{arith}

module _ (test : ℕ → Bool) where
  -- Whether the test holds of every number under the size.
  unfoldable pub table : ℕ → Bool
  table zero = true
  table (suc size) = let rest = table size in if test size then rest else false

  pub table-lookup : (x size : ℕ) → x < size → table size ≡ true → test x ≡ true
  unfolding table
  table-lookup x zero below whole = ground arith
  table-lookup x (suc size) below whole = ground (arith, table-lookup x size)
