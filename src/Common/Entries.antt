-- ===== src/Common/Entries.antt =====
-- Lists whose items are replaced by their place.
use sockstats.Common.Lists.{All, get_elem?, length}
use sockstats.Common.Tests.{◌==◌, Bool-cases}
use Prim.Native.Nat.{ℕ, zero, suc, ◌+◌, ◌≤◌, ◌<◌}
use mathlib.Core.Bool.{Bool, true, false}
use mathlib.Core.List.{List, [], ◌∷◌, ◌++◌}
use mathlib.Core.Logic.{◌⊎◌, inl, inr}
use mathlib.Core.Option.{none, some}
use mathlib.Core.Path.{◌≡◌, refl, ap}
use native.Mathlib.Omega.{arith}

module _ {ℓ} {A : Type ℓ} where
  abbrev pub put : List A → ℕ → A → List A
  put [] i y = []
  put (x ∷ xs) zero y = y ∷ xs
  put (x ∷ xs) (suc i) y = x ∷ put xs i y

  pub get_elem?-put_same :
      (xs : List A) (i : ℕ) (x y : A) → get_elem? xs i ≡ some x → get_elem? (put xs i y) i ≡ some y
  get_elem?-put_same [] i x y h = ground arith
  get_elem?-put_same (z ∷ xs) zero x y h = refl
  get_elem?-put_same (z ∷ xs) (suc i) x y h = get_elem?-put_same xs i x y h

  pub get_elem?-put_other :
      (xs : List A) (i j : ℕ) (y : A) → (i == j) ≡ false → get_elem? (put xs i y) j ≡ get_elem? xs j
  get_elem?-put_other [] i j y h = refl
  get_elem?-put_other (z ∷ xs) zero zero y h = ground arith
  get_elem?-put_other (z ∷ xs) zero (suc j) y h = refl
  get_elem?-put_other (z ∷ xs) (suc i) zero y h = refl
  get_elem?-put_other (z ∷ xs) (suc i) (suc j) y h = get_elem?-put_other xs i j y ground arith

  -- Either all the items pass a test, or there is one that fails it.
  pub All-or_place :
      (p : A → Bool) (xs : List A)
      → All (λ x. p x ≡ true) xs ⊎ ((i : ℕ) × (x : A) × (get_elem? xs i ≡ some x) × (p x ≡ false))
  All-or_place p [] = inl tt
  All-or_place p (x ∷ xs) = elim (Bool-cases (p x)) [
    | inr fails ↦ inr (0, x, refl, fails)
    | inl passes ↦ elim (All-or_place p xs) [
      | inl all ↦ inl (passes, all)
      | inr (i, y, at, fails) ↦ inr (suc i, y, at, fails)
    ]
  ]

  abbrev pub sum_of : (A → ℕ) → List A → ℕ
  sum_of f [] = 0
  sum_of f (x ∷ xs) = f x + sum_of f xs

  -- A replaced item changes the sum by the difference of its own number.
  pub sum_of-put :
      (f : A → ℕ) (xs : List A) (i : ℕ) (x y : A)
      → get_elem? xs i ≡ some x
      → sum_of f (put xs i y) + f x ≡ sum_of f xs + f y
  sum_of-put f [] i x y h = ground arith
  sum_of-put f (z ∷ xs) zero x y h = ground arith
  sum_of-put f (z ∷ xs) (suc i) x y h = omega (arith, sum_of-put f xs i x y h)

  -- An item of a list with one more at its end.
  pub get_elem?-append_last :
      (xs : List A) (i : ℕ) (x y : A)
      → get_elem? (xs ++ (x ∷ [])) i ≡ some y
      → (get_elem? xs i ≡ some y) ⊎ ((i ≡ length xs) × (x ≡ y))
  get_elem?-append_last [] zero x y h = inr (refl, ground arith)
  get_elem?-append_last [] (suc i) x y h = inl h
  get_elem?-append_last (z ∷ xs) zero x y h = inl h
  get_elem?-append_last (z ∷ xs) (suc i) x y h = elim (get_elem?-append_last xs i x y h) [
    | inl old ↦ inl old
    | inr (last, same) ↦ inr (ap suc last, same)
  ]

  pub get_elem?-lt-length : (xs : List A) (i : ℕ) (x : A) → get_elem? xs i ≡ some x → i < length xs
  get_elem?-lt-length [] i x h = ground arith
  get_elem?-lt-length (z ∷ xs) zero x h = omega arith
  get_elem?-lt-length (z ∷ xs) (suc i) x h = omega (arith, get_elem?-lt-length xs i x h)

  pub get_elem?-none-le : (xs : List A) (i : ℕ) → get_elem? xs i ≡ none → length xs ≤ i
  get_elem?-none-le [] i h = omega arith
  get_elem?-none-le (z ∷ xs) zero h = ground arith
  get_elem?-none-le (z ∷ xs) (suc i) h = omega (arith, get_elem?-none-le xs i h)

  pub length-put : (xs : List A) (i : ℕ) (y : A) → length (put xs i y) ≡ length xs
  length-put [] i y = refl
  length-put (z ∷ xs) zero y = refl
  length-put (z ∷ xs) (suc i) y = ap suc (length-put xs i y)
