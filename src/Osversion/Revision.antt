-- ===== src/Osversion/Revision.antt =====
-- pkg/osversion/osversion_windows.go: the value that `Get` keeps, and `BuildRevision`.
use sockstats.Common.Text.{Text, codes}
use sockstats.Common.{
  ℕ, ◌%◌, ◌^◌, ◌≡◌, refl, Option, none, some, List, [], ◌∷◌, ◌++◌, All, Result, ok, err, arith,
}
use sockstats.OperatingSystem.Windows.{Key, ValueError, value_or, release_of}
use sockstats.Osversion.{OsVersion, get}

-- The three numbers that a call of `RtlGetVersion` gives.
pub record Numbers : Type 0 where
  pub major : ℕ
  pub minor : ℕ
  pub build_number : ℕ

-- `osv`, with `once`: `none` until the first call of `Get`.
abbrev pub Osv : Type 0
Osv = Option OsVersion

-- `Get`, which asks for the numbers on its first call only; the value and the variables.
unfoldable pub get_once : Numbers → Osv → OsVersion × Osv
get_once n none = (get n.major n.minor n.build_number, some (get n.major n.minor n.build_number))
get_once n (some osv) = (osv, some osv)

-- Calls of `Get`, one after the other, at the numbers that the system has at the time.
unfoldable pub gets : List Numbers → Osv → List OsVersion
unfolding get_once
gets [] osv = []
gets (n ∷ ns) osv = let (v, osv') = get_once n osv in v ∷ gets ns osv'

-- `Build`
unfoldable pub build : Numbers → Osv → ℕ
unfolding get_once
build n osv = (get_once n osv).0.build

abbrev pub revision_of : (ValueError → Text) → Result ValueError ℕ → Result Text ℕ
revision_of print (ok s) = ok (s % 2 ^ 32)
revision_of print (err e) = err (codes "read `UBR` from registry: " ++ print e)

-- `BuildRevision`; `print` is the text of an error of the registry.
unfoldable pub build_revision : (ValueError → Text) → Result Text Key → Result Text ℕ
build_revision print (err e) = err (codes "open `CurrentVersion` registry key: " ++ e)
build_revision print (ok key) = revision_of print (key.integer_value (codes "UBR"))

gets-some : (ns : List Numbers) (osv : OsVersion) → All (λ v. v ≡ osv) (gets ns (some osv))
unfolding gets get_once
gets-some [] osv = tt
gets-some (n ∷ ns) osv = (refl, gets-some ns osv)

-- All the calls of `Get` return the version of the first one, even if the numbers that the system
-- gives should change between them.
gets_first :
    (n : Numbers) (ns : List Numbers)
    → All (λ v. v ≡ get n.major n.minor n.build_number) (gets (n ∷ ns) none)
unfolding gets get_once
gets_first n ns = (refl, gets-some ns (get n.major n.minor n.build_number))

-- Where `BuildRevision` returns a number, it is the revision of the name that `GetOperatingSystem`
-- gives on the same registry, kept to 32 bits.
build_revision-release_of :
    (print : ValueError → Text) (opened : Result Text Key) (product_type number r : ℕ)
    → build_revision print opened ≡ ok r
    → (release_of product_type number opened).ubr % 2 ^ 32 ≡ r
unfolding build_revision
build_revision-release_of print (err e) product_type number r h = ground arith
build_revision-release_of print (ok key) product_type number r h =
    go (key.integer_value (codes "UBR")) h
  where
    go : (a : Result ValueError ℕ) → revision_of print a ≡ ok r → value_or 0 a % 2 ^ 32 ≡ r
    go (ok s) e = ground arith
    go (err w) e = ground arith
