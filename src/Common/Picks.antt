-- ===== src/Common/Picks.antt =====
-- The items of a list that a test finds, and folds that keep the last of them.
use mathlib.Core.List.{List, [], ◌∷◌}
use mathlib.Core.Option.{Option, none, some}
use mathlib.Core.Path.{◌≡◌, refl, ◌∙◌}

abbrev pub last_or : {A : Type 0} → A → List A → A
last_or x [] = x
last_or x (y ∷ ys) = last_or y ys

abbrev pub first_or : {A : Type 0} → A → List A → A
first_or x [] = x
first_or x (y ∷ ys) = y

abbrev pub cons_some : {A : Type 0} → Option A → List A → List A
cons_some none xs = xs
cons_some (some x) xs = x ∷ xs

-- What a test finds in each of the items, in their order.
abbrev pub picks : {A B : Type 0} → (A → Option B) → List A → List B
picks p [] = []
picks p (o ∷ os) = cons_some (p o) (picks p os)

-- The later value, if there is one.
abbrev pub or_old : {A : Type 0} → Option A → A → A
or_old none x = x
or_old (some y) x = y

abbrev pub fold_items : {A B : Type 0} → (A → B → B) → List A → B → B
fold_items g [] x = x
fold_items g (o ∷ os) x = fold_items g os (g o x)

last_or-cons_some :
    {A : Type 0} (q : Option A) (x : A) (xs : List A)
    → last_or (or_old q x) xs ≡ last_or x (cons_some q xs)
last_or-cons_some none x xs = refl
last_or-cons_some (some y) x xs = refl

module _ {A B : Type 0} (p : A → Option B) where
  pub fold_items-or_old :
      (os : List A) (x : B) → fold_items (λ o. or_old (p o)) os x ≡ last_or x (picks p os)
  fold_items-or_old [] x = refl
  fold_items-or_old (o ∷ os) x = fold_items-or_old os _ ∙ last_or-cons_some (p o) x _
