-- ===== src/Kernel/Release/RoundTrip.antt =====
-- pkg/kernel/kernel.go: `ParseRelease` on what `String` prints.
use sockstats.Common.{
  ℕ, suc, ◌≡◌, refl, ◌∙◌, ap, none, some, [], ◌∷◌, ◌++◌, All-append, arith, ltb, if◌then◌else◌,
  Option, Result, ok,
}
use sockstats.Common.Int.{ℤ, pos, negsuc}
use sockstats.Common.Text.{
  Text, is_digit, format_uint, format_int, Passes, Stops, format_uint-Passes,
}
use sockstats.Common.Word.{IsInt64}
use sockstats.Kernel.Release.Defs.{
  numbers, Rest, scan_major, scan_numbers, scan_rest, parse_release,
}
use sockstats.Kernel.Scan.Laws.{NoSpace, scan_int-format_int, scan_string_word, scan_string-nil}
use sockstats.Kernel.Scan.{is_space, scan_literal, scan_string}
use sockstats.Kernel.Version.{VersionInfo, to_string}

-- A version whose print can be read back.
pub record IsPrintable (v : VersionInfo) : Type 0 where
  pub kernel_in : IsInt64 v.kernel
  pub major_in : IsInt64 v.major
  pub minor_in : IsInt64 v.minor
  pub flavor_word : NoSpace v.flavor
  pub flavor_start : Stops is_digit v.flavor

digits-NoSpace : (t : Text) → Passes is_digit t → NoSpace t
unfolding is_space
digits-NoSpace [] h = tt
digits-NoSpace (c ∷ t) h = (ground (arith, h.0), digits-NoSpace t h.1)

format_int-NoSpace : (z : ℤ) → NoSpace (format_int z)
unfolding format_int is_space
format_int-NoSpace (pos n) = digits-NoSpace (format_uint n) (format_uint-Passes n)
format_int-NoSpace (negsuc n) =
    (refl, digits-NoSpace (format_uint (suc n)) (format_uint-Passes (suc n)))

-- What follows the major number in a print.
abbrev tail : VersionInfo → Text
tail v = b'.' ∷ (format_int v.minor ++ v.flavor)

tail-NoSpace : (v : VersionInfo) → IsPrintable v → NoSpace (tail v)
unfolding is_space
tail-NoSpace v h =
    (refl, All-append _ (format_int v.minor) v.flavor (format_int-NoSpace v.minor) h.flavor_word)

scan_literal_self : (l : ℕ) (t : Text) → scan_literal l (l ∷ t) ≡ some t
unfolding scan_literal
scan_literal_self l t = ground arith

scan_numbers-to_string :
    (v : VersionInfo)
    → IsPrintable v
    → scan_numbers (to_string v) ≡ numbers 3 v.kernel v.major (tail v)
unfolding scan_numbers scan_major to_string
scan_numbers-to_string v h =
    rw
      (
        scan_int-format_int v.kernel (b'.' ∷ (format_int v.major ++ tail v)) h.kernel_in refl,
        scan_numbers,
      )
      (rw (scan_literal_self b'.' (format_int v.major ++ tail v), scan_numbers)
        (rw (scan_int-format_int v.major (tail v) h.major_in refl, scan_major)
          (rw (
            scan_string_word b'.' (format_int v.minor ++ v.flavor) (tail-NoSpace v h),
            scan_major,
          ))))

-- The second scan, by how %s goes on the flavor.
scan_rest-tail :
    (v : VersionInfo) {f : Option Text}
    → IsPrintable v
    → scan_string v.flavor ≡ f
    → scan_rest (tail v) ≡ elim f [
      | none ↦ record { parsed = 1; minor = v.minor; flavor = [] }
      | some w ↦ record { parsed = 2; minor = v.minor; flavor = w }
    ]
unfolding scan_rest
scan_rest-tail v h e =
    rw (scan_literal_self b'.' (format_int v.minor ++ v.flavor), scan_rest)
      (rw (scan_int-format_int v.minor v.flavor h.minor_in h.flavor_start, scan_rest)
        (rw (e, scan_rest)))

-- What `ParseRelease` makes of the two scans.
assemble : VersionInfo → Text → Rest → Result Text VersionInfo
assemble v p r = ok (record {
  kernel = v.kernel;
  major = v.major;
  minor = r.minor;
  flavor = if ltb r.parsed 1 then p else r.flavor;
})

parse_release-assemble :
    (v : VersionInfo)
    → IsPrintable v
    → parse_release (to_string v) ≡ assemble v (tail v) (scan_rest (tail v))
unfolding parse_release assemble
parse_release-assemble v h = rw (scan_numbers-to_string v h, parse_release)

assemble_flavor :
    (v : VersionInfo) (f : Text)
    → v.flavor ≡ f
    → IsPrintable v
    → assemble v (tail v) (scan_rest (tail v)) ≡ ok v
unfolding assemble
assemble_flavor v [] e h = rw (scan_rest-tail v h (ap scan_string e ∙ scan_string-nil)) (cc)
assemble_flavor v (c ∷ f) e h =
    rw (scan_rest-tail v h (ap scan_string e ∙ scan_string_word c f (rw e at h.flavor_word))) (cc)

-- `ParseRelease` reads the print of a version back exactly, whatever the three numbers (each an
-- int64, of either sign) and the flavor, if the flavor has no white space and does not begin
-- with a digit.
pub parse_release-to_string : (v : VersionInfo) → IsPrintable v → parse_release (to_string v) ≡ ok v
parse_release-to_string v h = parse_release-assemble v h ∙ assemble_flavor v v.flavor refl h
