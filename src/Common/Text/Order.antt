-- ===== src/Common/Text/Order.antt =====
-- The equality and the order of texts.
use sockstats.Common.Tests.{◌==◌, eq_of_==, Bool-cases}
use sockstats.Common.Text.Defs.{Text}
use sockstats.Common.Text.Strings.{same_text, less_text}
use mathlib.Core.Bool.{true, false, not}
use mathlib.Core.List.{[], ◌∷◌}
use mathlib.Core.Logic.{inl, inr}
use mathlib.Core.Path.{◌≡◌, refl}
use native.Mathlib.Omega.{arith}

pub same_text_refl : (s : Text) → same_text s s ≡ true
unfolding same_text
same_text_refl [] = refl
same_text_refl (c ∷ s) = ground (arith, same_text_refl s)

pub eq_of_same_text : (s t : Text) → same_text s t ≡ true → s ≡ t
unfolding same_text
eq_of_same_text [] [] h = refl
eq_of_same_text [] (d ∷ t) h = ground arith
eq_of_same_text (c ∷ s) [] h = ground arith
eq_of_same_text (c ∷ s) (d ∷ t) h = elim (Bool-cases (c == d)) [
  | inl e ↦ let first = eq_of_== c d e in let rest = eq_of_same_text s t (rw e at h) in cc
  | inr e ↦ absurd (ground arith)
]

pub same_text_comm : (s t : Text) → same_text s t ≡ same_text t s
unfolding same_text
same_text_comm [] [] = refl
same_text_comm [] (d ∷ t) = refl
same_text_comm (c ∷ s) [] = refl
same_text_comm (c ∷ s) (d ∷ t) = ground (arith, same_text_comm s t)

pub less_text_irrefl : (s : Text) → less_text s s ≡ false
unfolding less_text
less_text_irrefl [] = refl
less_text_irrefl (c ∷ s) = ground (arith, less_text_irrefl s)

-- Of two texts that differ, one is less.
pub less_text_total : (s t : Text) → same_text s t ≡ false → less_text s t ≡ not (less_text t s)
unfolding same_text less_text
less_text_total [] [] h = ground arith
less_text_total [] (d ∷ t) h = refl
less_text_total (c ∷ s) [] h = refl
less_text_total (c ∷ s) (d ∷ t) h = ground (arith, less_text_total s t)

pub less_text_trans :
    (s t u : Text) → less_text s t ≡ true → less_text t u ≡ true → less_text s u ≡ true
unfolding less_text
less_text_trans s t [] h k = ground arith
less_text_trans [] t (e ∷ u) h k = refl
less_text_trans (c ∷ s) [] (e ∷ u) h k = ground arith
less_text_trans (c ∷ s) (d ∷ t) (e ∷ u) h k = ground (arith, less_text_trans s t u)

pub less_text_asym : (s t : Text) → less_text s t ≡ true → less_text t s ≡ false
unfolding less_text
less_text_asym s [] h = ground arith
less_text_asym [] (d ∷ t) h = refl
less_text_asym (c ∷ s) (d ∷ t) h = ground (arith, less_text_asym s t)
