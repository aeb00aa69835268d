-- ===== src/Httpstat/Headers/Insertion.antt =====
-- cmd/httpstat/main.go: sorting by insertion does what is asked of `sort.Sort`.
use mathlib.Core.List.{Permᴰ}
use mathlib.Core.List.Permᴰ
use sockstats.Common.Text.{Text, same_text, same_text_comm, same_text_refl}
use sockstats.Common.{
  ◌≡◌, refl, ap, ◌∙◌, true, false, List, [], ◌∷◌, All, All-map₂, arith, Bool-cases, inl, inr,
}
use sockstats.Httpstat.Headers.Order.{
  goes_before, goes_before_trans, goes_before_antisym, less-goes_before,
}
use sockstats.Httpstat.Headers.Sorting.{
  Differs, AllDiffer, InOrder, Sorts, insert, insertion_sort, less-goes_before_back,
}
use sockstats.Httpstat.Headers.{less}

insert-Permᴰ : (a : Text) (names : List Text) → Permᴰ (insert a names) (a ∷ names)
insert-Permᴰ a [] = Permᴰ.refl _
insert-Permᴰ a (b ∷ names) = elim (Bool-cases (goes_before a b)) [
  | inl e ↦ rw e (Permᴰ.refl _)
  | inr e ↦ rw e (Permᴰ.trans (Permᴰ.cons refl (insert-Permᴰ a names)) (Permᴰ.swap refl refl))
]

insertion_sort-same_names : (names : List Text) → Permᴰ (insertion_sort names) names
insertion_sort-same_names [] = Permᴰ.nil
insertion_sort-same_names (a ∷ names) =
    Permᴰ.trans (insert-Permᴰ a (insertion_sort names))
      (Permᴰ.cons refl (insertion_sort-same_names names))

module _ (Q : Text → Type 0) where
  All-insert : (a : Text) (names : List Text) → Q a → All Q names → All Q (insert a names)
  All-insert a [] q h = (q, tt)
  All-insert a (b ∷ names) q (first, h) = elim (Bool-cases (goes_before a b)) [
    | inl e ↦ rw e (q, (first, h))
    | inr e ↦ rw e (first, All-insert a names q h)
  ]

  All-insertion_sort : (names : List Text) → All Q names → All Q (insertion_sort names)
  All-insertion_sort [] h = tt
  All-insertion_sort (a ∷ names) (q, h) =
      All-insert a (insertion_sort names) q (All-insertion_sort names h)

not_less : (a b : Text) → same_text a b ≡ false → goes_before a b ≡ true → less b a ≡ false
not_less a b differ h = elim (Bool-cases (goes_before b a)) [
  | inl e ↦
      let same = ap (same_text a) (goes_before_antisym b a e h) ∙ same_text_refl a in
      absurd (ground arith)
  | inr e ↦ less-goes_before b a (same_text_comm b a ∙ differ) ∙ e
]

insert-InOrder :
    (a : Text) (names : List Text) → Differs a names → InOrder names → InOrder (insert a names)
insert-InOrder a [] d h = (tt, tt)
insert-InOrder a (b ∷ names) (db, d) (first, h) = elim (Bool-cases (goes_before a b)) [
  | inl e ↦ rw e (
    (
      not_less a b db e,
      All-map₂
          (λ y dy hy. not_less a y dy (goes_before_trans a b y e (less-goes_before_back b y hy)))
          names d first,
    ),
    (first, h),
  )
  | inr e ↦ rw e (
    All-insert (λ y. less y b ≡ false) a names (less-goes_before a b db ∙ e) first,
    insert-InOrder a names d h,
  )
]

insertion_sort-InOrder : (names : List Text) → AllDiffer names → InOrder (insertion_sort names)
insertion_sort-InOrder [] d = tt
insertion_sort-InOrder (a ∷ names) (da, d) =
    insert-InOrder a (insertion_sort names) (All-insertion_sort _ names da)
      (insertion_sort-InOrder names d)

pub insertion_sort-Sorts : Sorts insertion_sort
insertion_sort-Sorts = record {
  same_names = insertion_sort-same_names;
  in_order = insertion_sort-InOrder;
}
