-- ===== src/OperatingSystem/Trimmed.antt =====
-- What `strings.Trim` leaves, and the values of os-release.
use mathlib.Core.Path.{subst}
use sockstats.Common.Text.{Text}
use sockstats.Common.{
  ℕ, ◌≡◌, refl, sym, ◌∙◌, ap, Bool, false, Option, none, some, List, [], ◌∷◌, ◌++◌, arith, Result,
  ok, err, picks, last_or, cons_some, All, Bool-cases, inl, inr,
}
use sockstats.Common.Text.{trim, trim_left, trim_right, keep_right, cut_prefix, parts}
use sockstats.OperatingSystem.Lines.{scan_lines}
use sockstats.OperatingSystem.Release.{
  OpenError, in_cutset, trimmed, found, assigned, file_of, get_value_from_os_release,
  get_value_from_os_release-last,
}

module _ (cut : ℕ → Bool) where
  abbrev StartsKept : Text → Type 0
  StartsKept [] = Unit
  StartsKept (c ∷ s) = cut c ≡ false

  trim_left-StartsKept : (s : Text) → StartsKept (trim_left cut s)
  unfolding trim_left
  trim_left-StartsKept [] = tt
  trim_left-StartsKept (c ∷ s) = elim (Bool-cases (cut c)) [
    | inl e ↦ rw (e, trim_left) (trim_left-StartsKept s)
    | inr e ↦ rw (e, trim_left) e
  ]

  trim_left_kept : (s : Text) → StartsKept s → trim_left cut s ≡ s
  unfolding trim_left
  trim_left_kept [] h = refl
  trim_left_kept (c ∷ s) h = rw (h)

  keep_right-StartsKept : (c : ℕ) (t : Text) → cut c ≡ false → StartsKept (keep_right cut c t)
  keep_right-StartsKept c [] h = rw (h) h
  keep_right-StartsKept c (d ∷ t) h = h

  trim_right-StartsKept : (s : Text) → StartsKept s → StartsKept (trim_right cut s)
  unfolding trim_right
  trim_right-StartsKept [] h = tt
  trim_right-StartsKept (c ∷ s) h = keep_right-StartsKept c (trim_right cut s) h

  trim_right-keep_right :
      (c : ℕ) (t : Text)
      → trim_right cut t ≡ t
      → trim_right cut (keep_right cut c t) ≡ keep_right cut c t
  unfolding trim_right
  trim_right-keep_right c [] h = ground arith
  trim_right-keep_right c (d ∷ t) h = ap (keep_right cut c) h

  trim_right-trim_right : (s : Text) → trim_right cut (trim_right cut s) ≡ trim_right cut s
  unfolding trim_right
  trim_right-trim_right [] = refl
  trim_right-trim_right (c ∷ s) =
      trim_right-keep_right c (trim_right cut s) (trim_right-trim_right s)

  trim-trim : (s : Text) → trim cut (trim cut s) ≡ trim cut s
  unfolding trim
  trim-trim s =
      ap (trim_right cut)
        (trim_left_kept _ (trim_right-StartsKept (trim_left cut s) (trim_left-StartsKept s)))
      ∙ trim_right-trim_right (trim_left cut s)

-- A value that trimming leaves as it is: it has none of the characters at either end.
abbrev pub IsTrimmed : Text → Type 0
IsTrimmed v = trim in_cutset v ≡ v

trimmed-IsTrimmed :
    (o : Option Text) (more : List Text)
    → All IsTrimmed more
    → All IsTrimmed (cons_some (trimmed o) more)
trimmed-IsTrimmed none more h = h
trimmed-IsTrimmed (some after) more h = (trim-trim in_cutset after, h)

nil-IsTrimmed : IsTrimmed []
unfolding trim trim_left trim_right
nil-IsTrimmed = refl

picks-IsTrimmed : (key : Text) (lines : List Text) → All IsTrimmed (picks (assigned key) lines)
picks-IsTrimmed key [] = tt
picks-IsTrimmed key (line ∷ lines) =
    trimmed-IsTrimmed (cut_prefix line (key ++ b'=' ∷ [])) (picks (assigned key) lines)
      (picks-IsTrimmed key lines)

last_or-IsTrimmed :
    (v : Text) (vs : List Text) → IsTrimmed v → All IsTrimmed vs → IsTrimmed (last_or v vs)
last_or-IsTrimmed v [] h hs = h
last_or-IsTrimmed v (w ∷ ws) h (k, ks) = last_or-IsTrimmed w ws k ks

found-IsTrimmed :
    (key : Text) (r : Result OpenError Text) (v : Text) → found key r ≡ ok v → IsTrimmed v
found-IsTrimmed key (err e) v h = absurd (ground arith)
found-IsTrimmed key (ok file) v h =
    let lines = scan_lines (parts b'\n' file) in
    let last : last_or [] (picks (assigned key) lines) ≡ v = cc in
    subst IsTrimmed last
      (last_or-IsTrimmed [] (picks (assigned key) lines) nil-IsTrimmed (picks-IsTrimmed key lines))

-- A value that is returned has no quotes and no spaces at its ends: trimming it again changes
-- nothing.
pub get_value_from_os_release-IsTrimmed :
    (key : Text) (etc alt : Result OpenError Text) (v : Text)
    → get_value_from_os_release key etc alt ≡ ok v
    → IsTrimmed v
get_value_from_os_release-IsTrimmed key etc alt v h =
    found-IsTrimmed key (file_of etc alt) v (sym (get_value_from_os_release-last key etc alt) ∙ h)
