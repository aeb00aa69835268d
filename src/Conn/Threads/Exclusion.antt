-- ===== src/Conn/Threads/Exclusion.antt =====
-- wrap.go: the mutex of a shared connection.
use sockstats.Common.{
  ℕ, zero, suc, ◌≡◌, refl, sym, ap, ◌∙◌, Bool, true, false, Option, none, some, List, [], ◌∷◌,
  get_elem?, put, get_elem?-put_same, get_elem?-put_other, ◌==◌, eq_of_==, Bool-cases, inl, inr,
  arith, if◌then◌else◌,
}
use sockstats.Conn.Methods.{Call, read_of, write_of, set_reconnects_of, close_of}
use sockstats.Conn.Platform.{Platform}
use sockstats.Conn.State.{Conn}
use sockstats.Conn.Threads.{
  Goroutine, inside, changing, storing, setting, Shared, System, behind, Move, lock_call,
  fetch_call, fetch_store, run_call, skip, pass, give_up, ask, lock_store, run_store, call_back,
  Step, pick, Reach, here, later, start,
}

-- Whether a goroutine is between `w.Lock()` and `w.Unlock()`.
abbrev pub holds : {P : Platform} → Goroutine P → Bool
holds (inside _ _) = true
holds (changing _ _) = true
holds (storing _ _) = true
holds (setting _ _) = true
holds _ = false

behind-holds : {P : Platform} (o : Call P) (os : List (Call P)) → holds (behind o os) ≡ false
behind-holds (read_of _ _ _) os = refl
behind-holds (write_of _ _ _) os = refl
behind-holds (set_reconnects_of _) os = refl
behind-holds (close_of _ _ _) os = refl

-- A step leaves the mutex as it is, takes it when it is free, or gives it back.
data Kind (i : ℕ) : Option ℕ → Bool → Option ℕ → Bool → Type 0 where
  keeps : {h : Option ℕ} {x : Bool} → Kind i h x h x
  takes : Kind i none false (some i) true
  gives : {h : Option ℕ} → Kind i h true none false

-- Whether the mutex is held by a goroutine.
abbrev pub is_holder : Option ℕ → ℕ → Bool
is_holder none j = false
is_holder (some k) j = k == j

Kind-is_holder :
    (i : ℕ) (h h' : Option ℕ) (x x' : Bool)
    → Kind i h x h' x'
    → x ≡ is_holder h i
    → (x' ≡ is_holder h' i) × ((j : ℕ) → (i == j) ≡ false → is_holder h j ≡ is_holder h' j)
Kind-is_holder i h _ x _ keeps e = (e, λ j d. refl)
Kind-is_holder i _ _ x _ takes e = (ground arith, λ j d. sym d)
Kind-is_holder i none _ _ _ gives e = (ground arith, λ j d. refl)
Kind-is_holder i (some k) _ _ _ gives e = (refl, λ j d. ground arith)

abbrev pub some_holds : {P : Platform} → Option (Goroutine P) → Bool
some_holds none = false
some_holds (some g) = holds g

-- Whether the goroutine at a place is between `w.Lock()` and `w.Unlock()`.
abbrev pub holding : {P : Platform} → List (Goroutine P) → ℕ → Bool
holding gs j = some_holds (get_elem? gs j)

holding-put :
    {P : Platform} (gs : List (Goroutine P)) (i j : ℕ) (g g' : Goroutine P)
    → get_elem? gs i ≡ some g
    → holding (put gs i g') j ≡ (if i == j then holds g' else holding gs j)
holding-put gs i j g g' at = elim (Bool-cases (i == j)) [
  | inl same ↦
      ap (λ k. some_holds (get_elem? (put gs i g') k)) (sym (eq_of_== i j same))
      ∙ ap some_holds (get_elem?-put_same gs i g g' at)
      ∙ rw same refl
  | inr other ↦ rw other (ap some_holds (get_elem?-put_other gs i j g' other))
]

module _ {P : Platform} {C : Type 0} where
  Move-Kind :
      {b : Bool} {i : ℕ} {m m' : Shared P C} {g g' : Goroutine P}
      → Move b i m g m' g'
      → Kind i m.holder (holds g) m'.holder (holds g')
  Move-Kind (lock_call free) = rw free takes
  Move-Kind fetch_call = keeps
  Move-Kind fetch_store = keeps
  Move-Kind (run_call {o = o} {os = os}) = rw (behind-holds o os) gives
  Move-Kind (skip _) = keeps
  Move-Kind (pass _) = keeps
  Move-Kind (give_up _) = keeps
  Move-Kind (ask _) = keeps
  Move-Kind (lock_store free) = rw free takes
  Move-Kind run_store = gives
  Move-Kind (call_back _) = keeps

  -- The mutex is held by just the goroutine that is between `w.Lock()` and `w.Unlock()`.
  abbrev pub IsLocked : System P C → Type 0
  IsLocked s = (j : ℕ) → holding s.goroutines j ≡ is_holder s.shared.holder j

  Step-IsLocked : {b : Bool} {s t : System P C} → Step b s t → IsLocked s → IsLocked t
  Step-IsLocked (pick {m = m} {m' = m'} {gs = gs} {g = g} {g' = g'} i at move) h j =
      let mine : holds g ≡ is_holder m.holder i = ap some_holds (sym at) ∙ h i in
      let (here_too, others) =
        Kind-is_holder i m.holder m'.holder (holds g) (holds g') (Move-Kind move) mine in
      holding-put gs i j g g' at ∙ elim (Bool-cases (i == j)) [
        | inl same ↦ rw same (here_too ∙ ap (is_holder m'.holder) (eq_of_== i j same))
        | inr other ↦ rw other (h j ∙ others j other)
      ]

  start-IsLocked : (c : Conn P C) (programs : List (List (Call P))) → IsLocked (start c programs)
  start-IsLocked c [] j = refl
  start-IsLocked c (os ∷ programs) zero = refl
  start-IsLocked c (os ∷ programs) (suc j) = start-IsLocked c programs j

  -- However the goroutines are interleaved, from a connection whose mutex is free: at each time the
  -- mutex is held by a goroutine exactly if that goroutine is between its `w.Lock()` and
  -- `w.Unlock()`, so that no two of them are in a critical section at once.
  pub Reach-IsLocked :
      (b : Bool) (c : Conn P C) (programs : List (List (Call P))) (n : ℕ) (t : System P C)
      → Reach b (start c programs) n t
      → IsLocked t
        × ((i j : ℕ) → holding t.goroutines i ≡ true → holding t.goroutines j ≡ true → i ≡ j)
  Reach-IsLocked b c programs n t r =
      let h = locked r in (h, λ i j x y. only t.shared.holder i j (sym (h i) ∙ x) (sym (h j) ∙ y))
    where
      locked : {n : ℕ} {t : System P C} → Reach b (start c programs) n t → IsLocked t
      locked here = start-IsLocked c programs
      locked (later r step) = Step-IsLocked step (locked r)

      only : (h : Option ℕ) (i j : ℕ) → is_holder h i ≡ true → is_holder h j ≡ true → i ≡ j
      only none i j x y = ground arith
      only (some k) i j x y = sym (eq_of_== k i x) ∙ eq_of_== k j y
