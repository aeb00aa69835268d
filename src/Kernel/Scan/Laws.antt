-- ===== src/Kernel/Scan/Laws.antt =====
-- What the scanning steps read, and what they leave.
use sockstats.Common.{
  ℕ, suc, ◌≡◌, ◌≢◌, refl, sym, ◌∙◌, ◌==◌, inl, inr, Option-cases, Bool, true, false, not, none,
  some, [], ◌∷◌, ◌++◌, arith, Bool-cases,
}
use sockstats.Common.Int.{ℤ, pos, negsuc}
use sockstats.Common.Text.{
  Text, is_digit, take_while, drop_while, value, format_uint, format_int, Passes, Stops,
  value-format_uint, format_uint-Passes, format_uint-cons, format_uint-ne-nil, take_while-append,
  drop_while-append, take_while-Passes, drop_while-Stops, take_while_all, drop_while-All,
}
use sockstats.Common.Word.{IsInt64}
use sockstats.Kernel.Scan.Defs.{
  is_space, in_int, skip_space, scan_sign, scan_digits, scan_int, scan_literal, scan_word,
  scan_string,
}

-- No rune is white space.
abbrev pub NoSpace : Text → Type 0
NoSpace = Passes (λ x. not (is_space x))

skip_space_digit : (c : ℕ) (cs : Text) → is_digit c ≡ true → skip_space (c ∷ cs) ≡ some (c ∷ cs)
unfolding skip_space
skip_space_digit c cs h = ground arith

scan_sign_digit : (c : ℕ) (cs : Text) → is_digit c ≡ true → scan_sign (c ∷ cs) ≡ (false, c ∷ cs)
unfolding scan_sign
scan_sign_digit c cs h = ground arith

scan_digits-value :
    (minus : Bool) (t rest : Text) {z : ℤ}
    → t ≢ []
    → in_int minus (value 0 t) ≡ some z
    → scan_digits minus t rest ≡ some (z, rest)
unfolding scan_digits
scan_digits-value minus [] rest ne e = absurd (ne refl)
scan_digits-value minus (d ∷ ds) rest ne e = rw (e, scan_digits)

-- The digits of a print, read back behind either sign.
scan_digits-format_uint :
    (minus : Bool) (n : ℕ) (rest : Text) {z : ℤ}
    → Stops is_digit rest
    → in_int minus n ≡ some z
    → scan_digits minus
        (take_while is_digit (format_uint n ++ rest))
        (drop_while is_digit (format_uint n ++ rest))
      ≡ some (z, rest)
scan_digits-format_uint minus n rest s e =
    rw (take_while-append is_digit (format_uint n) rest (format_uint-Passes n) s) (
      rw (drop_while-append is_digit (format_uint n) rest (format_uint-Passes n) s) (
        scan_digits-value minus (format_uint n) rest (format_uint-ne-nil n)
          (rw (value-format_uint n) e)))

scan_int_digit :
    (t : Text)
    → (c : ℕ) × (cs : Text) × (t ≡ c ∷ cs) × (is_digit c ≡ true)
    → (rest : Text)
    → scan_int (t ++ rest)
      ≡ scan_digits false (take_while is_digit (t ++ rest)) (drop_while is_digit (t ++ rest))
unfolding scan_int
scan_int_digit t (c, cs, e, h) rest =
    rw e (rw (skip_space_digit c (cs ++ rest) h, scan_int) (rw (scan_sign_digit c (cs ++ rest) h)))

scan_int_minus :
    (t : Text)
    → scan_int (b'-' ∷ t) ≡ scan_digits true (take_while is_digit t) (drop_while is_digit t)
unfolding scan_int skip_space scan_sign
scan_int_minus t = refl

-- %d reads back the print of every int64, up to the first rune that is no digit.
pub scan_int-format_int :
    (z : ℤ) (rest : Text)
    → IsInt64 z
    → Stops is_digit rest
    → scan_int (format_int z ++ rest) ≡ some (z, rest)
unfolding format_int in_int
scan_int-format_int (pos n) rest h s =
    scan_int_digit (format_uint n) (format_uint-cons n) rest
    ∙ scan_digits-format_uint false n rest s (ground arith)
scan_int-format_int (negsuc n) rest h s =
    scan_int_minus (format_uint (suc n) ++ rest)
    ∙ scan_digits-format_uint true (suc n) rest s (ground arith)

skip_space_id : (t : Text) → NoSpace t → skip_space t ≡ some t
unfolding skip_space
skip_space_id [] h = refl
skip_space_id (c ∷ t) h = ground (arith, h.0)

-- %s reads a text with no white space whole.
pub scan_string_word : (c : ℕ) (w : Text) → NoSpace (c ∷ w) → scan_string (c ∷ w) ≡ some (c ∷ w)
unfolding scan_string scan_word
scan_string_word c w h =
    rw (skip_space_id (c ∷ w) h, scan_string)
      (rw (take_while_all (λ x. not (is_space x)) (c ∷ w) h))

pub scan_string-nil : scan_string [] ≡ none
unfolding scan_string
scan_string-nil = refl

-- What a scanning step leaves has no white space, if what it was given has none.
skip_space-NoSpace : (t : Text) {t' : Text} → NoSpace t → skip_space t ≡ some t' → t ≡ t'
skip_space-NoSpace t h e = cc (skip_space_id t h)

scan_sign-NoSpace : (t : Text) → NoSpace t → NoSpace (scan_sign t).1
unfolding scan_sign
scan_sign-NoSpace [] h = tt
scan_sign-NoSpace (c ∷ t) h = ground (arith, h.0, h.1)

in_int-IsInt64 : (minus : Bool) (n : ℕ) {z : ℤ} → in_int minus n ≡ some z → IsInt64 z
unfolding in_int
in_int-IsInt64 false n e = ground arith
in_int-IsInt64 true n e = ground arith

scan_digits_sound :
    (minus : Bool) (ds rest : Text) {z : ℤ} {t : Text}
    → scan_digits minus ds rest ≡ some (z, t)
    → IsInt64 z × (rest ≡ t)
unfolding scan_digits
scan_digits_sound minus [] rest e = cc
scan_digits_sound minus (d ∷ ds) rest e = ground (arith, in_int-IsInt64 minus (value 0 (d ∷ ds)))

scan_int_inv :
    (t : Text) {r : ℤ × Text}
    → scan_int t ≡ some r
    → (u : Text) × (skip_space t ≡ some u)
      × (scan_digits
            (scan_sign u).0
            (take_while is_digit (scan_sign u).1)
            (drop_while is_digit (scan_sign u).1)
          ≡ some r)
unfolding scan_int
scan_int_inv t {r} e = elim (Option-cases (skip_space t)) [
  | inl f ↦ let e' : none ≡ some r = rw (f, scan_int) at e in cc
  | inr (u, f) ↦ (u, f, rw (f, scan_int) at e)
]

-- A number that %d accepts is an int64, and what it leaves does not begin with a digit.
pub scan_int_sound :
    (t : Text) {z : ℤ} {t' : Text}
    → scan_int t ≡ some (z, t')
    → IsInt64 z × Stops is_digit t' × (NoSpace t → NoSpace t')
scan_int_sound t e =
    let (u, f, g) = scan_int_inv t e in
    let (z_in, left) = scan_digits_sound _ (take_while is_digit (scan_sign u).1) _ g in
    (
      z_in,
      rw left at (drop_while-Stops is_digit (scan_sign u).1),
      λ h. rw left at (
          drop_while-All is_digit _ (scan_sign u).1
            (scan_sign-NoSpace u (rw (skip_space-NoSpace t h f) at h))),
    )

scan_word_sound : (u : Text) {w : Text} → scan_word u ≡ some w → NoSpace w × (NoSpace u → u ≡ w)
unfolding scan_word
scan_word_sound [] e = cc
scan_word_sound (c ∷ u) {w} e =
    let f : take_while (λ x. not (is_space x)) (c ∷ u) ≡ w = cc in
    (
      rw f at (take_while-Passes (λ x. not (is_space x)) (c ∷ u)),
      λ h. sym (take_while_all (λ x. not (is_space x)) (c ∷ u) h) ∙ f,
    )

-- What %s accepts has no white space; of a text with none it is the whole.
pub scan_string_sound :
    (t : Text) {w : Text} → scan_string t ≡ some w → NoSpace w × (NoSpace t → t ≡ w)
unfolding scan_string
scan_string_sound t {w} e = elim (Option-cases (skip_space t)) [
  | inl f ↦ let e' : none ≡ some w = rw (f, scan_string) at e in cc
  | inr (u, f) ↦
      let (h, k) = scan_word_sound u (rw (f, scan_string) at e) in
      (h, λ n. skip_space-NoSpace t n f ∙ k (rw (skip_space-NoSpace t n f) at n))
]

-- A text with no white space that %s refuses is empty.
pub scan_string_refused : (t : Text) → NoSpace t → scan_string t ≡ none → t ≡ []
scan_string_refused [] h e = refl
scan_string_refused (c ∷ t) h e = let f = scan_string_word c t h in cc

pub scan_literal-NoSpace :
    (l : ℕ) (t : Text) {t' : Text} → NoSpace t → scan_literal l t ≡ some t' → NoSpace t'
unfolding scan_literal
scan_literal-NoSpace l [] h e = cc
scan_literal-NoSpace l (c ∷ t) {t'} h e = elim (Bool-cases (c == l)) [
  | inl q ↦ let f : some t ≡ some t' = rw q at e in let g : t ≡ t' = cc in rw g at h.1
  | inr q ↦ let f : none ≡ some t' = rw q at e in cc
]
