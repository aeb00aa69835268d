-- ===== src/Conn/Threads/Fresh.antt =====
-- wrap.go: what a goroutine has read under the mutex is still so when it writes.
use sockstats.Common.{
  ℕ, ◌≡◌, refl, sym, ap, ◌∙◌, ◌⊎◌, Bool, true, false, Option, none, some, List, get_elem?, put,
  get_elem?-put_same, get_elem?-put_other, ◌==◌, eq_of_==, Bool-cases, inl, inr, arith,
}
use mathlib.Core.Path.{subst}
use sockstats.Conn.Methods.{Call, read_of, write_of, set_reconnects_of, close_of}
use sockstats.Conn.Platform.{Platform}
use sockstats.Conn.State.{Conn}
use sockstats.Conn.Threads.Exclusion.{holds, some_holds, holding, Reach-IsLocked}
use sockstats.Conn.Threads.{
  Goroutine, changing, setting, Shared, System, behind, Move, lock_call, fetch_call, run_call, skip,
  pass, give_up, ask, lock_store, fetch_store, run_store, call_back, Step, pick, Reach, here, later,
  start,
}

-- Whether a goroutine has read the fields and has still to write them.
abbrev pub writes : {P : Platform} → Goroutine P → Bool
writes (changing _ _) = true
writes (setting _ _) = true
writes _ = false

abbrev pub some_writes : {P : Platform} → Option (Goroutine P) → Bool
some_writes none = false
some_writes (some g) = writes g

behind-writes : {P : Platform} (o : Call P) (os : List (Call P)) → writes (behind o os) ≡ false
behind-writes (read_of _ _ _) os = refl
behind-writes (write_of _ _ _) os = refl
behind-writes (set_reconnects_of _) os = refl
behind-writes (close_of _ _ _) os = refl

some_writes-holds :
    {P : Platform} (o : Option (Goroutine P)) → some_writes o ≡ true → some_holds o ≡ true
some_writes-holds o h = ground arith

module _ {P : Platform} {C : Type 0} where
  -- The copy of each goroutine that has still to write is what the connection is now.
  abbrev pub IsFresh : System P C → Type 0
  IsFresh s =
      (j : ℕ) → some_writes (get_elem? s.goroutines j) ≡ true → s.shared.copies j ≡ s.shared.conn

  Move-own :
      {b : Bool} {i : ℕ} {m m' : Shared P C} {g g' : Goroutine P}
      → Move b i m g m' g'
      → writes g' ≡ true
      → m'.copies i ≡ m'.conn
  Move-own (lock_call _) h = absurd (ground arith)
  Move-own fetch_call h = ground arith
  Move-own (run_call {o = o} {os = os}) h =
      let e = sym (behind-writes o os) ∙ h in absurd (ground arith)
  Move-own (skip _) h = absurd (ground arith)
  Move-own (pass _) h = absurd (ground arith)
  Move-own (give_up _) h = absurd (ground arith)
  Move-own (ask _) h = absurd (ground arith)
  Move-own (lock_store _) h = absurd (ground arith)
  Move-own fetch_store h = ground arith
  Move-own run_store h = absurd (ground arith)
  Move-own (call_back _) h = absurd (ground arith)

  -- The copies of the others stay, and only a goroutine with the mutex changes the connection.
  Move-others :
      {b : Bool} {i : ℕ} {m m' : Shared P C} {g g' : Goroutine P}
      → Move b i m g m' g'
      → (j : ℕ) → (i == j) ≡ false
      → (m'.copies j ≡ m.copies j) × ((m'.conn ≡ m.conn) ⊎ (holds g ≡ true))
  Move-others (lock_call _) j h = (refl, inl refl)
  Move-others fetch_call j h = (ground arith, inl refl)
  Move-others run_call j h = (refl, inr refl)
  Move-others (skip _) j h = (refl, inl refl)
  Move-others (pass _) j h = (refl, inl refl)
  Move-others (give_up _) j h = (refl, inl refl)
  Move-others (ask _) j h = (refl, inl refl)
  Move-others (lock_store _) j h = (refl, inl refl)
  Move-others fetch_store j h = (ground arith, inl refl)
  Move-others run_store j h = (refl, inr refl)
  Move-others (call_back _) j h = (refl, inl refl)

  Step-IsFresh :
      {b : Bool} {s t : System P C}
      → Step b s t
      → ((i j : ℕ) → holding s.goroutines i ≡ true → holding s.goroutines j ≡ true → i ≡ j)
      → IsFresh s
      → IsFresh t
  Step-IsFresh (pick {m = m} {m' = m'} {gs = gs} {g = g} {g' = g'} i at move) only fresh j w =
      elim (Bool-cases (i == j)) [
        | inl mine ↦
            let e = eq_of_== i j mine in
            let w' =
              ap some_writes (sym (get_elem?-put_same gs i g g' at))
              ∙ ap (λ k. some_writes (get_elem? (put gs i g') k)) e
              ∙ w in
            subst (λ k. m'.copies k ≡ m'.conn) e (Move-own move w')
        | inr other ↦
            let was = ap some_writes (sym (get_elem?-put_other gs i j g' other)) ∙ w in
            let (kept, changed) = Move-others move j other in
            kept ∙ fresh j was ∙ elim changed [
              | inl same ↦ sym same
              | inr held ↦
                  let e = only i j (ap some_holds at ∙ held) (some_writes-holds _ was) in
                  absurd (ground arith)
            ]
      ]

  start-IsFresh : (c : Conn P C) (programs : List (List (Call P))) → IsFresh (start c programs)
  start-IsFresh c programs j w = refl

  -- However the goroutines are interleaved, from a connection whose mutex is free: at each time what
  -- a goroutine has read in its critical section is what the connection is until it writes.
  pub Reach-IsFresh :
      (b : Bool) (c : Conn P C) (programs : List (List (Call P))) (n : ℕ) (t : System P C)
      → Reach b (start c programs) n t
      → IsFresh t
  Reach-IsFresh b c programs n t here = start-IsFresh c programs
  Reach-IsFresh b c programs _ _ (later {n = n} {t = t} r step) =
      Step-IsFresh step (Reach-IsLocked b c programs n t r).1 (Reach-IsFresh b c programs n t r)
