-- ===== src/Common/Text/Span.antt =====
-- `take_while` and `drop_while`: the front of a text that passes a test, and the rest.
use sockstats.Common.Lists.{All}
use sockstats.Common.Text.Defs.{Text, take_while, drop_while}
use Prim.Native.Nat.{ℕ}
use mathlib.Core.Bool.{Bool, true, false}
use mathlib.Core.List.{[], ◌∷◌, ◌++◌}
use mathlib.Core.Path.{◌≡◌, refl, ap}
use native.Mathlib.Omega.{arith}

-- The text is empty, or its first character fails the test.
abbrev pub Stops : (ℕ → Bool) → Text → Type 0
Stops p [] = Unit
Stops p (c ∷ _) = p c ≡ false

abbrev pub Passes : (ℕ → Bool) → Text → Type 0
Passes p = All (λ c. p c ≡ true)

module _ (p : ℕ → Bool) where
  take_while_stop : (rest : Text) → Stops p rest → take_while p rest ≡ []
  unfolding take_while
  take_while_stop [] h = refl
  take_while_stop (c ∷ rest) h = rw h

  drop_while_stop : (rest : Text) → Stops p rest → drop_while p rest ≡ rest
  unfolding drop_while
  drop_while_stop [] h = refl
  drop_while_stop (c ∷ rest) h = rw h

  pub take_while-append :
      (xs rest : Text) → Passes p xs → Stops p rest → take_while p (xs ++ rest) ≡ xs
  unfolding take_while
  take_while-append [] rest h s = take_while_stop rest s
  take_while-append (c ∷ xs) rest (hc, hs) s = rw hc (ap (◌∷◌ c) (take_while-append xs rest hs s))

  pub drop_while-append :
      (xs rest : Text) → Passes p xs → Stops p rest → drop_while p (xs ++ rest) ≡ rest
  unfolding drop_while
  drop_while-append [] rest h s = drop_while_stop rest s
  drop_while-append (c ∷ xs) rest (hc, hs) s = rw hc (drop_while-append xs rest hs s)

  pub take_while-Passes : (t : Text) → Passes p (take_while p t)
  unfolding take_while
  take_while-Passes [] = tt
  take_while-Passes (c ∷ t) = ground (arith, take_while-Passes t)

  pub drop_while-Stops : (t : Text) → Stops p (drop_while p t)
  unfolding drop_while
  drop_while-Stops [] = tt
  drop_while-Stops (c ∷ t) = ground (arith, drop_while-Stops t)

  pub take_while_all : (t : Text) → Passes p t → take_while p t ≡ t
  unfolding take_while
  take_while_all [] h = refl
  take_while_all (c ∷ t) (hc, ht) = rw hc (ap (◌∷◌ c) (take_while_all t ht))

  -- What holds of all the characters holds of those behind the front.
  pub drop_while-All : (q : ℕ → Bool) (t : Text) → Passes q t → Passes q (drop_while p t)
  unfolding drop_while
  drop_while-All q [] h = tt
  drop_while-All q (c ∷ t) (hc, ht) = ground (arith, drop_while-All q t ht)
