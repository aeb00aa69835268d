-- ===== src/Common/Word.antt =====
-- Go's int64: an integer kept to 64 bits of two's complement.
use sockstats.Common.Tests.{ltb, if◌then◌else◌}
use sockstats.Common.Int.{ℤ, pos, negsuc, pos_part, neg_part, ◌+ℤ◌, ◌≤ℤ◌}
use Prim.Native.Nat.{ℕ, ◌+◌, ◌-◌, ◌%◌, ◌^◌}
use mathlib.Core.Path.{◌≡◌}
use native.Mathlib.Omega.{arith}

abbrev pub two_63 : ℕ
two_63 = 2 ^ 63

abbrev pub two_64 : ℕ
two_64 = 2 ^ 64

-- The bit pattern of an integer.
abbrev bits : ℤ → ℕ
bits a = (pos_part a + (two_64 - neg_part a % two_64)) % two_64

-- The integer that a 64-bit pattern stands for.
abbrev signed : ℕ → ℤ
signed w = if ltb w two_63 then pos w else negsuc (two_64 - w - 1)

-- The value that is left of an integer in an int64.
unfoldable pub wrap_64 : ℤ → ℤ
wrap_64 a = signed (bits a)

abbrev pub IsInt64 : ℤ → Type 0
IsInt64 a = (negsuc (two_63 - 1) ≤ℤ a) × (a ≤ℤ pos (two_63 - 1))

pub wrap_64-IsInt64 : (a : ℤ) → IsInt64 (wrap_64 a)
unfolding wrap_64
wrap_64-IsInt64 a = ground arith

-- A value in range is left as it is.
pub wrap_64_id : (a : ℤ) → IsInt64 a → wrap_64 a ≡ a
unfolding wrap_64
wrap_64_id a h = ground arith

-- Additions may be wrapped one by one or all at the end.
pub wrap_64-add_left : (a b : ℤ) → wrap_64 (wrap_64 a +ℤ b) ≡ wrap_64 (a +ℤ b)
unfolding wrap_64 ◌+ℤ◌
wrap_64-add_left a b = ground arith
