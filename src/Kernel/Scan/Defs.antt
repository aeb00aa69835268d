-- ===== src/Kernel/Scan/Defs.antt =====
-- The scanning steps, as the documentation of package fmt describes them.
use sockstats.Common.{
  ℕ, ◌-◌, Bool, true, false, not, ◌&&◌, ◌||◌, Option, none, some, [], ◌∷◌, leb, ltb, ◌==◌,
  if◌then◌else◌,
}
use sockstats.Common.Int.{ℤ, pos, negsuc}
use sockstats.Common.Text.{Text, is_digit, take_while, drop_while, value}
use sockstats.Common.Word.{two_63}

abbrev within : ℕ → ℕ → ℕ → Bool
within lo hi c = leb lo c && leb c hi

-- Unicode white space.
unfoldable pub is_space : ℕ → Bool
is_space c =
    within 0x09 0x0d c
    || c == 0x20
    || c == 0x85
    || c == 0xa0
    || c == 0x1680
    || within 0x2000 0x200a c
    || within 0x2028 0x2029 c
    || c == 0x202f
    || c == 0x205f
    || c == 0x3000

abbrev pub is_sign : ℕ → Bool
is_sign c = c == b'+' || c == b'-'

-- White space is skipped before a verb; a newline is an error of `Sscanf`.
unfoldable pub skip_space : Text → Option Text
unfolding is_space
skip_space [] = some []
skip_space (c ∷ cs) =
    let rest = skip_space cs in
    if c == b'\n' then none else if is_space c then rest else some (c ∷ cs)

-- The sign of a number, true for a minus, and the text behind it.
unfoldable pub scan_sign : Text → Bool × Text
scan_sign [] = (false, [])
scan_sign (c ∷ cs) = if is_sign c then (c == b'-', cs) else (false, c ∷ cs)

-- The number with that sign and that magnitude, if it is in the range of an int64.
unfoldable pub in_int : Bool → ℕ → Option ℤ
in_int false n = if ltb n two_63 then some (pos n) else none
in_int true n =
    if n == 0 then some (pos 0) else if leb n two_63 then some (negsuc (n - 1)) else none

-- The digits of %d, of which there is at least one, and the range check of `strconv.ParseInt`.
unfoldable pub scan_digits : Bool → Text → Text → Option (ℤ × Text)
unfolding in_int
scan_digits minus [] rest = none
scan_digits minus (d ∷ ds) rest = elim (in_int minus (value 0 (d ∷ ds))) [
  | none ↦ none
  | some z ↦ some (z, rest)
]

-- %d
unfoldable pub scan_int : Text → Option (ℤ × Text)
unfolding skip_space scan_sign scan_digits take_while drop_while
scan_int t = elim (skip_space t) [
  | none ↦ none
  | some t' ↦
      let (minus, t'') = scan_sign t' in
      scan_digits minus (take_while is_digit t'') (drop_while is_digit t'')
]

-- A literal rune of the format.
unfoldable pub scan_literal : ℕ → Text → Option Text
scan_literal l [] = none
scan_literal l (c ∷ cs) = if c == l then some cs else none

-- The word of %s; at the end of the text there is none.
unfoldable pub scan_word : Text → Option Text
scan_word [] = none
scan_word (c ∷ cs) = some (take_while (λ x. not (is_space x)) (c ∷ cs))

-- %s
unfoldable pub scan_string : Text → Option Text
unfolding skip_space scan_word take_while
scan_string t = elim (skip_space t) [ none ↦ none | some t' ↦ scan_word t' ]
