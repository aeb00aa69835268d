-- ===== src/Httpstat/Headers/Unordered.antt =====
-- cmd/httpstat/main.go: the print of the headers as a function of a map, which has no order.
use mathlib.Core.List.Permᴰ
use mathlib.Core.List.{Permᴰ}
use mathlib.Core.Quot
use mathlib.Core.Quot.{Quot}
use sockstats.Common.Text.{Text}
use sockstats.Common.{◌≡◌, refl, sym, ◌∙◌, List}
use sockstats.Httpstat.Headers.Sorting.{AllDiffer, Sorts, header_lines-Permᴰ}
use sockstats.Httpstat.Headers.{header_lines}

-- The names in a header, in some order: no name twice.
abbrev pub Listing : Type 0
Listing = (names : List Text) × AllDiffer names

abbrev SameNames : Listing → Listing → Type 0
SameNames a b = Permᴰ a.0 b.0

-- The key set of a map of Go: a listing of which the order is forgotten.
abbrev pub KeySet : Type 0
KeySet = Quot SameNames

lines-set : IsSet (List Text)
lines-set = hlevel

module _ (sort : List Text → List Text) (is : Sorts sort) (header : Text → List Text) where
  -- The header lines of a key set: those of any listing of it.
  pub lines_of : KeySet → List Text
  lines_of =
      Quot.lift lines-set (λ a. header_lines sort header a.0)
        (λ a b p. (header_lines-Permᴰ sort is header a.0 b.0 a.1 b.1 p).0)

-- The header lines that `visit` prints are a function of the key set of the header, of which the
-- range over the map gives some listing, and any two ways of sorting that leave the same names, in
-- order whenever they all differ, print the same lines for the same key set.
pub lines_of-Sorts :
    (sort sort' : List Text → List Text) (is : Sorts sort) (is' : Sorts sort')
    (header : Text → List Text) (a : Listing) (q : KeySet)
    → (lines_of sort is header (Quot.mk a) ≡ header_lines sort header a.0)
      × (lines_of sort is header q ≡ lines_of sort' is' header q)
unfolding lines_of
lines_of-Sorts sort sort' is is' header a q = (
  refl,
  Quot.ind (λ q. lines-set (lines_of sort is header q) (lines_of sort' is' header q))
      (λ a.
        (header_lines-Permᴰ sort is header a.0 a.0 a.1 a.1 (Permᴰ.refl a.0)).1
        ∙ sym (header_lines-Permᴰ sort' is' header a.0 a.0 a.1 a.1 (Permᴰ.refl a.0)).1)
      q,
)
