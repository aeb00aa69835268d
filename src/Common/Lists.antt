-- ===== src/Common/Lists.antt =====
-- Lists measured by native numbers, and predicates over all the items.
use Prim.Native.Nat.{ℕ, zero, suc, ◌+◌}
use mathlib.Core.List.{List, [], ◌∷◌, ◌++◌}
use mathlib.Core.Option.{Option, none, some}
use mathlib.Core.Path.{◌≡◌}
use native.Mathlib.Omega.{arith}

module _ {ℓ} {A : Type ℓ} where
  abbrev pub length : List A → ℕ
  length [] = 0
  length (x ∷ xs) = suc (length xs)

  pub length-append : (xs ys : List A) → length (xs ++ ys) ≡ length xs + length ys
  length-append [] ys = omega arith
  length-append (x ∷ xs) ys = omega (arith, length-append xs ys)

module _ {ℓ κ} {A : Type ℓ} (P : A → Type κ) where
  abbrev pub All : List A → Type κ
  All [] = Unit
  All (x ∷ xs) = P x × All xs

  pub All-append : (xs ys : List A) → All xs → All ys → All (xs ++ ys)
  All-append [] ys _ hy = hy
  All-append (x ∷ xs) ys (px, hx) hy = (px, All-append xs ys hx hy)

module _ {ℓ κ ι} {A : Type ℓ} {P : A → Type κ} {Q : A → Type ι} where
  pub All-map : ((x : A) → P x → Q x) → (xs : List A) → All P xs → All Q xs
  All-map f [] h = tt
  All-map f (x ∷ xs) (px, hx) = (f x px, All-map f xs hx)

module _ {ℓ κ ι μ} {A : Type ℓ} {P : A → Type κ} {Q : A → Type ι} {R : A → Type μ} where
  pub All-map₂ : ((x : A) → P x → Q x → R x) → (xs : List A) → All P xs → All Q xs → All R xs
  All-map₂ f [] h k = tt
  All-map₂ f (x ∷ xs) (px, hx) (qx, kx) = (f x px qx, All-map₂ f xs hx kx)

module _ {ℓ} {A : Type ℓ} where
  abbrev pub get_elem? : List A → ℕ → Option A
  get_elem? [] i = none
  get_elem? (x ∷ xs) zero = some x
  get_elem? (x ∷ xs) (suc i) = get_elem? xs i

module _ {ℓ κ} {A : Type ℓ} (P : A → Type κ) where
  -- What is said of an item that may not be there.
  abbrev pub Present : Option A → Type κ
  Present none = Unit
  Present (some x) = P x

  pub All-get_elem? : (xs : List A) (i : ℕ) → All P xs → Present (get_elem? xs i)
  All-get_elem? [] i h = tt
  All-get_elem? (x ∷ xs) zero h = h.0
  All-get_elem? (x ∷ xs) (suc i) h = All-get_elem? xs i h.1
