-- ===== src/Httpstat/Request/Header.antt =====
-- cmd/httpstat/main.go: the key and the value of a header option.
use sockstats.Common.Text.{Text, cut_at, trim_left, trim_right, Passes}
use sockstats.Common.{
  ℕ, ◌≡◌, refl, ◌∙◌, Bool, false, not, some, [], ◌∷◌, ◌++◌, ok, ◌==◌, arith, All-append,
}
use sockstats.Httpstat.Request.{is_blank, is_mark, header_key_value}

abbrev pub no_colon : ℕ → Bool
no_colon c = not (c == b':')

cut_at-append : (s t : Text) → Passes no_colon s → cut_at b':' (s ++ b':' ∷ t) ≡ some (s, b':' ∷ t)
unfolding cut_at
cut_at-append [] t h = refl
cut_at-append (c ∷ s) t (hc, h) =
    let e : (c == b':') ≡ false = ground arith in rw (e, cut_at-append s t h) refl

trim_left-append :
    (cut : ℕ → Bool) (marks v : Text)
    → Passes cut marks
    → trim_left cut v ≡ v
    → trim_left cut (marks ++ v) ≡ v
unfolding trim_left
trim_left-append cut [] v h k = k
trim_left-append cut (c ∷ marks) v (hc, h) k = rw hc (trim_left-append cut marks v h k)

trim_right-all : (cut : ℕ → Bool) (blanks : Text) → Passes cut blanks → trim_right cut blanks ≡ []
unfolding trim_right
trim_right-all cut [] h = refl
trim_right-all cut (c ∷ blanks) (hc, h) = rw (trim_right-all cut blanks h) (rw hc refl)

trim_right-append :
    (cut : ℕ → Bool) (k blanks : Text)
    → Passes cut blanks
    → trim_right cut (k ++ blanks) ≡ trim_right cut k
unfolding trim_right
trim_right-append cut [] blanks h = trim_right-all cut blanks h
trim_right-append cut (c ∷ k) blanks h = rw (trim_right-append cut k blanks h) refl

blank-no_colon : (blanks : Text) → Passes is_blank blanks → Passes no_colon blanks
blank-no_colon [] h = tt
blank-no_colon (c ∷ blanks) (hc, h) = (ground arith, blank-no_colon blanks h)

-- A header option of a key without a colon and without blanks at its end, then any blanks, a colon
-- and any blanks and colons, then a value that starts with neither, is read as that key and that
-- value.
header_key_value-written :
    (key blanks marks value : Text)
    → Passes no_colon key
    → trim_right is_blank key ≡ key
    → Passes is_blank blanks
    → Passes is_mark marks
    → trim_left is_mark value ≡ value
    → header_key_value ((key ++ blanks) ++ b':' ∷ (marks ++ value)) ≡ ok (key, value)
unfolding header_key_value
header_key_value-written key blanks marks value plain trimmed hb hm starts =
    let front = All-append _ key blanks plain (blank-no_colon blanks hb) in
    let found = cut_at-append (key ++ blanks) (marks ++ value) front in
    let k = trim_right-append is_blank key blanks hb ∙ trimmed in
    let v = trim_left-append is_mark (b':' ∷ marks) value (refl, hm) starts in
    rw (found, header_key_value) (rw (k, v) refl)
