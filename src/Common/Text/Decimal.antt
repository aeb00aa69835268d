-- ===== src/Common/Text/Decimal.antt =====
-- The decimal print of a number, and the value of a text of digits.
use sockstats.Common.Text.Defs.{Text, is_digit, digits_onto, format_uint}
use sockstats.Common.Text.Span.{Passes}
use Prim.Native.Nat.{ℕ, zero, suc, ◌+◌, ◌-◌, ◌*◌, ◌/◌, ◌%◌, ◌<◌}
use mathlib.Core.Bool.{true}
use mathlib.Core.List.{[], ◌∷◌, foldl}
use mathlib.Core.Logic.{◌≢◌}
use mathlib.Core.Path.{◌≡◌, refl}
use native.Mathlib.Omega.{arith}

-- The number that digits spell behind `n`.
abbrev pub value : ℕ → Text → ℕ
value = foldl (λ n c. n * 10 + (c - b'0'))

value-digits_onto : (f n : ℕ) (out : Text) → n < f → value 0 (digits_onto f n out) ≡ value n out
unfolding digits_onto
value-digits_onto zero n out h = elim h [ ]
value-digits_onto (suc f) n out h =
    ground (arith, value-digits_onto f (n / 10) ((b'0' + n % 10) ∷ out))

digits_onto-Passes :
    (f n : ℕ) (out : Text) → Passes is_digit out → Passes is_digit (digits_onto f n out)
unfolding digits_onto
digits_onto-Passes zero n out h = h
digits_onto-Passes (suc f) n out h =
    ground (arith, digits_onto-Passes f (n / 10) ((b'0' + n % 10) ∷ out))

digits_onto_ne : (f n : ℕ) (out : Text) → out ≢ [] → digits_onto f n out ≢ []
unfolding digits_onto
digits_onto_ne zero n out h = h
digits_onto_ne (suc f) n out h = ground (arith, digits_onto_ne f (n / 10) ((b'0' + n % 10) ∷ out))

-- The value of the print of a number is the number.
pub value-format_uint : (n : ℕ) → value 0 (format_uint n) ≡ n
unfolding format_uint
value-format_uint n = value-digits_onto (suc n) n [] (omega arith)

pub format_uint-Passes : (n : ℕ) → Passes is_digit (format_uint n)
unfolding format_uint
format_uint-Passes n = digits_onto-Passes (suc n) n [] tt

pub format_uint-ne-nil : (n : ℕ) → format_uint n ≢ []
unfolding format_uint digits_onto
format_uint-ne-nil n = ground (arith, digits_onto_ne n (n / 10) ((b'0' + n % 10) ∷ []))

-- The print of a number is a first digit and the others.
pub format_uint-cons :
    (n : ℕ) → (c : ℕ) × (cs : Text) × (format_uint n ≡ c ∷ cs) × (is_digit c ≡ true)
format_uint-cons n = go (format_uint n) refl (format_uint-Passes n) (format_uint-ne-nil n)
  where
    go :
        (t : Text)
        → format_uint n ≡ t
        → Passes is_digit t
        → t ≢ []
        → (c : ℕ) × (cs : Text) × (format_uint n ≡ c ∷ cs) × (is_digit c ≡ true)
    go [] e h ne = absurd (ne refl)
    go (c ∷ cs) e h ne = (c, cs, e, h.0)
