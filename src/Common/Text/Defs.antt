-- ===== src/Common/Text/Defs.antt =====
-- Texts as lists of code points, and the decimal print of numbers.
use sockstats.Common.Tests.{ltb, leb, if◌then◌else◌}
use sockstats.Common.Int.{ℤ, pos, negsuc}
use Prim.Native.Char.{code}
use Prim.Native.String.{String}
use Prim.Native.Nat.{ℕ, zero, suc, ◌+◌, ◌/◌, ◌%◌}
use mathlib.Core.Bool.{Bool, ◌&&◌}
use mathlib.Core.List.{List, [], ◌∷◌}
use mathlib.Core.Path.{◌≡◌, refl}

abbrev pub Text : Type 0
Text = List ℕ

-- The code points of a literal.
abbrev pub codes : String → Text
codes String.[] = []
codes (String.◌∷◌ c s) = code c ∷ codes s

abbrev pub is_digit : ℕ → Bool
is_digit c = leb b'0' c && leb c b'9'

-- The decimal digits of a number in front of `out`, on fuel; `suc n` of it is enough.
unfoldable pub digits_onto : ℕ → ℕ → Text → Text
digits_onto zero n out = out
digits_onto (suc f) n out =
    let rest = digits_onto f (n / 10) ((b'0' + n % 10) ∷ out) in
    if ltb n 10 then (b'0' + n) ∷ out else rest

-- `strconv.FormatUint(n, 10)` and `%d` of an unsigned number.
unfoldable pub format_uint : ℕ → Text
unfolding digits_onto
format_uint n = digits_onto (suc n) n []

-- `strconv.FormatInt(n, 10)` and `%d` of a signed number.
unfoldable pub format_int : ℤ → Text
unfolding format_uint
format_int (pos n) = format_uint n
format_int (negsuc n) = b'-' ∷ format_uint (suc n)

-- The longest front whose characters all pass a test, and what follows it.
unfoldable pub take_while : (ℕ → Bool) → Text → Text
take_while p [] = []
take_while p (c ∷ cs) = let rest = take_while p cs in if p c then c ∷ rest else []

unfoldable pub drop_while : (ℕ → Bool) → Text → Text
drop_while p [] = []
drop_while p (c ∷ cs) = let rest = drop_while p cs in if p c then rest else c ∷ cs

format_example : format_int (negsuc 1233) ≡ codes "-1234"
unfolding format_int
format_example = refl
