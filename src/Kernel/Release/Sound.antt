-- ===== src/Kernel/Release/Sound.antt =====
-- pkg/kernel/kernel.go: the versions that `ParseRelease` returns.
use mathlib.Core.Path.{subst}
use sockstats.Common.{
  ◌<◌, ◌≡◌, sym, ◌∙◌, ◌⊎◌, inl, inr, some, [], arith, ltb, if◌then◌else◌, Bool-cases, Option-cases,
  ok,
}
use sockstats.Common.Int.{ℤ, pos}
use sockstats.Common.Text.{Text, is_digit, Stops}
use sockstats.Common.Word.{IsInt64}
use sockstats.Kernel.Release.Defs.{
  Numbers, Rest, scan_major, scan_numbers, scan_rest, parse_release,
}
use sockstats.Kernel.Release.RoundTrip.{IsPrintable, parse_release-to_string}
use sockstats.Kernel.Scan.Laws.{NoSpace, scan_int_sound, scan_string_sound, scan_literal-NoSpace}
use sockstats.Kernel.Scan.{scan_int, scan_literal, scan_string}
use sockstats.Kernel.Version.{VersionInfo, to_string}

-- A text that %d may leave behind it, in a release without white space.
abbrev IsRest : Text → Type 0
IsRest t = NoSpace t × Stops is_digit t

IsRest-nil : IsRest []
IsRest-nil = (tt, tt)

word-IsRest : (u : Text) {w : Text} → IsRest u → scan_string u ≡ some w → IsRest w
word-IsRest u r e = subst IsRest ((scan_string_sound u e).1 r.0) r

abbrev NumbersInv : Numbers → Type 0
NumbersInv n = (n.parsed < 2) ⊎ (IsInt64 n.kernel × IsInt64 n.major × IsRest n.partial)

abbrev RestInv : Rest → Type 0
RestInv r = IsInt64 r.minor × ((r.parsed < 1) ⊎ IsRest r.flavor)

scan_major-Inv : (k : ℤ) (t : Text) → IsInt64 k → NoSpace t → NumbersInv (scan_major k t)
unfolding scan_major
scan_major-Inv k t hk h = elim (Option-cases (scan_int t)) [
  | inl e ↦ rw (e, scan_major) (inl (omega arith))
  | inr ((m, u), e) ↦
      let (hm, stops, left) = scan_int_sound t e in
      elim (Option-cases (scan_string u)) [
        | inl f ↦ rw (e, scan_major) (rw (f, scan_major) (inr (hk, hm, IsRest-nil)))
        | inr (p, f) ↦
            rw (e, scan_major) (rw (f, scan_major) (inr (hk, hm, word-IsRest u (left h, stops) f)))
      ]
]

scan_numbers-Inv : (t : Text) → NoSpace t → NumbersInv (scan_numbers t)
unfolding scan_numbers
scan_numbers-Inv t h = elim (Option-cases (scan_int t)) [
  | inl e ↦ rw (e, scan_numbers) (inl (omega arith))
  | inr ((k, u), e) ↦
      let (hk, _, left) = scan_int_sound t e in
      elim (Option-cases (scan_literal b'.' u)) [
        | inl f ↦ rw (e, scan_numbers) (rw (f, scan_numbers) (inl (omega arith)))
        | inr (u', f) ↦
            rw (e, scan_numbers)
              (rw (f, scan_numbers)
                (scan_major-Inv k u' hk (scan_literal-NoSpace b'.' u (left h) f)))
      ]
]

zero-IsInt64 : IsInt64 (pos 0)
zero-IsInt64 = omega arith

scan_rest-Inv : (t : Text) → NoSpace t → RestInv (scan_rest t)
unfolding scan_rest
scan_rest-Inv t h = elim (Option-cases (scan_literal b'.' t)) [
  | inl e ↦ rw (e, scan_rest) (zero-IsInt64, inl (omega arith))
  | inr (u, e) ↦ elim (Option-cases (scan_int u)) [
    | inl f ↦ rw (e, scan_rest) (rw (f, scan_rest) (zero-IsInt64, inl (omega arith)))
    | inr ((m, u'), f) ↦
        let (hm, stops, left) = scan_int_sound u f in
        let r : IsRest u' = (left (scan_literal-NoSpace b'.' t h e), stops) in
        elim (Option-cases (scan_string u')) [
          | inl g ↦ rw (e, scan_rest) (rw (f, scan_rest) (rw (g, scan_rest) (hm, inr IsRest-nil)))
          | inr (w, g) ↦
              rw (e, scan_rest)
                (rw (f, scan_rest) (rw (g, scan_rest) (hm, inr (word-IsRest u' r g))))
        ]
  ]
]

-- The version that two successful scans make.
assembled-IsPrintable :
    (n : Numbers) (r : Rest)
    → IsInt64 n.kernel
    → IsInt64 n.major
    → IsRest n.partial
    → RestInv r
    → IsPrintable (record {
      kernel = n.kernel;
      major = n.major;
      minor = r.minor;
      flavor = if ltb r.parsed 1 then n.partial else r.flavor;
    })
assembled-IsPrintable n r hk hm hp (hr, flavor) = elim (Bool-cases (ltb r.parsed 1)) [
  | inl e ↦ rw e (record {
    kernel_in = hk;
    major_in = hm;
    minor_in = hr;
    flavor_word = hp.0;
    flavor_start = hp.1;
  })
  | inr e ↦
      let f : IsRest r.flavor = elim flavor [ inl l ↦ absurd (ground arith) | inr g ↦ g ] in
      rw e (record {
        kernel_in = hk;
        major_in = hm;
        minor_in = hr;
        flavor_word = f.0;
        flavor_start = f.1;
      })
]

-- What `ParseRelease` returns for a release without white space is printable.
pub parse_release-IsPrintable :
    (t : Text) {v : VersionInfo} → NoSpace t → parse_release t ≡ ok v → IsPrintable v
unfolding parse_release
parse_release-IsPrintable t {v} h e = elim (scan_numbers-Inv t h) [
  | inl few ↦ absurd (ground arith)
  | inr (hk, hm, hp) ↦
      let n = scan_numbers t in
      let made =
        assembled-IsPrintable n (scan_rest n.partial) hk hm hp (scan_rest-Inv n.partial hp.0) in
      subst IsPrintable (ground arith) made
]

-- Printing what was parsed loses nothing: for a release without white space, parsing the print
-- of the version that `ParseRelease` returned gives the same version again.
parse_release-to_string-parse_release :
    (t : Text) {v : VersionInfo}
    → NoSpace t
    → parse_release t ≡ ok v
    → parse_release (to_string v) ≡ parse_release t
parse_release-to_string-parse_release t {v} h e =
    parse_release-to_string v (parse_release-IsPrintable t h e) ∙ sym e
