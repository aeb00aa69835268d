-- ===== src/Httpstat/Headers/Sorting.antt =====
-- cmd/httpstat/main.go: the order of the header lines, whatever order the range over the map has.
use mathlib.Core.List.{Permᴰ}
use sockstats.Common.Text.{Text, same_text, eq_of_same_text}
use sockstats.Common.{
  ◌≡◌, refl, sym, ap, ◌∙◌, true, false, List, [], ◌∷◌, All, if◌then◌else◌, Bool-cases, inl, inr,
}
use sockstats.Httpstat.Headers.Order.{
  goes_before, goes_before_refl, goes_before_total, goes_before_trans, goes_before_antisym,
  less-goes_before,
}
use sockstats.Httpstat.Headers.{less, header_lines}

-- An item differs from all of a list, and all of a list from each other, as the keys of a map do.
abbrev pub Differs : Text → List Text → Type 0
Differs a names = All (λ b. same_text a b ≡ false) names

abbrev pub AllDiffer : List Text → Type 0
AllDiffer [] = Unit
AllDiffer (a ∷ names) = Differs a names × AllDiffer names

-- No later item is less than an earlier one.
abbrev pub InOrder : List Text → Type 0
InOrder [] = Unit
InOrder (a ∷ names) = All (λ b. less b a ≡ false) names × InOrder names

-- What `sort.Sort` does with `headers`, where its order is one on the names: it leaves the same
-- names, in order.
pub record Sorts (sort : List Text → List Text) : Type 0 where
  pub same_names : (names : List Text) → Permᴰ (sort names) names
  pub in_order : (names : List Text) → AllDiffer names → InOrder (sort names)

-- The reference: sorting by insertion.
abbrev pub insert : Text → List Text → List Text
insert a [] = a ∷ []
insert a (b ∷ names) =
    let rest = insert a names in if goes_before a b then a ∷ b ∷ names else b ∷ rest

abbrev pub insertion_sort : List Text → List Text
insertion_sort [] = []
insertion_sort (a ∷ names) = insert a (insertion_sort names)

-- Two insertions commute, where the one name goes before the other.
insert-insert_apart :
    (a b : Text) (names : List Text)
    → goes_before a b ≡ true
    → goes_before b a ≡ false
    → insert a (insert b names) ≡ insert b (insert a names)
insert-insert_apart a b [] ab ba = rw (ab, ba) refl
insert-insert_apart a b (c ∷ names) ab ba = elim (Bool-cases (goes_before b c)) [
  | inl bc ↦ let ac = goes_before_trans a b c ab bc in rw (bc, ac, ab, ba, bc) refl
  | inr bc ↦ elim (Bool-cases (goes_before a c)) [
    | inl ac ↦ rw (bc, ac, ba, bc) refl
    | inr ac ↦ rw (bc, ac, bc) (ap (◌∷◌ c) (insert-insert_apart a b names ab ba))
  ]
]

insert-insert :
    (a b : Text) (names : List Text) → insert a (insert b names) ≡ insert b (insert a names)
insert-insert a b names = elim (Bool-cases (goes_before a b)) [
  | inl ab ↦ elim (Bool-cases (goes_before b a)) [
    | inl ba ↦ let same = goes_before_antisym a b ab ba in cc
    | inr ba ↦ insert-insert_apart a b names ab ba
  ]
  | inr ab ↦ sym (insert-insert_apart b a names (goes_before_total a b ab) ab)
]

-- Sorting forgets the order.
insertion_sort-Permᴰ :
    {names names' : List Text} → Permᴰ names names' → insertion_sort names ≡ insertion_sort names'
insertion_sort-Permᴰ Permᴰ.nil = refl
insertion_sort-Permᴰ (Permᴰ.cons {b = b} {l₁ = xs} e d) =
    ap (λ z. insert z (insertion_sort xs)) e ∙ ap (insert b) (insertion_sort-Permᴰ d)
insertion_sort-Permᴰ (Permᴰ.swap {a = a} {b = b} {a' = a'} {l = xs} e f) =
    insert-insert a b (insertion_sort xs)
    ∙ ap (λ z. insert z (insert a (insertion_sort xs))) f
    ∙ ap (λ z. insert a' (insert z (insertion_sort xs))) e
insertion_sort-Permᴰ (Permᴰ.trans d e) = insertion_sort-Permᴰ d ∙ insertion_sort-Permᴰ e

pub less-goes_before_back : (a b : Text) → less b a ≡ false → goes_before a b ≡ true
less-goes_before_back a b h = elim (Bool-cases (same_text b a)) [
  | inl same ↦ let e = eq_of_same_text b a same in let r = goes_before_refl a in cc
  | inr differ ↦ goes_before_total b a (sym (less-goes_before b a differ) ∙ h)
]

insert_first :
    (a : Text) (names : List Text) → All (λ b. less b a ≡ false) names → insert a names ≡ a ∷ names
insert_first a [] h = refl
insert_first a (b ∷ names) (h, _) = rw (less-goes_before_back a b h) refl

-- A list in order is sorted already.
insertion_sort_id : (names : List Text) → InOrder names → insertion_sort names ≡ names
insertion_sort_id [] h = refl
insertion_sort_id (a ∷ names) (first, h) =
    ap (insert a) (insertion_sort_id names h) ∙ insert_first a names first

sort-insertion_sort :
    (sort : List Text → List Text)
    → Sorts sort
    → (names : List Text) → AllDiffer names
    → sort names ≡ insertion_sort names
sort-insertion_sort sort is names d =
    sym (insertion_sort_id (sort names) (is.in_order names d))
    ∙ insertion_sort-Permᴰ (is.same_names names)

-- Where `sort.Sort` leaves the same names, in order whenever they all differ: the header lines that
-- `visit` prints do not depend on the order in which the range over the map gives the names, all
-- different, and are those of the names sorted by insertion.
pub header_lines-Permᴰ :
    (sort : List Text → List Text)
    → Sorts sort
    → (header : Text → List Text) (names names' : List Text) → AllDiffer names
    → AllDiffer names'
    → Permᴰ names names'
    → (header_lines sort header names ≡ header_lines sort header names')
      × (header_lines sort header names ≡ header_lines insertion_sort header names)
unfolding header_lines
header_lines-Permᴰ sort is header names names' d d' p =
    let sorted = sort-insertion_sort sort is in
    (
      ap (header_lines (λ l. l) header)
          (sorted names d ∙ insertion_sort-Permᴰ p ∙ sym (sorted names' d')),
      ap (header_lines (λ l. l) header) (sorted names d),
    )
