-- ===== src/Conn/Threads/Serial.antt =====
-- wrap.go: goroutines that share a connection change it by one critical section after the other.
use sockstats.Common.{ℕ, ◌≡◌, refl, ap, ◌∙◌, Bool, true, List, [], ◌∷◌}
use sockstats.Conn.Methods.{Call}
use sockstats.Conn.Platform.{Platform}
use sockstats.Conn.State.{Conn}
use sockstats.Conn.Threads.Fresh.{writes, some_writes, Reach-IsFresh}
use sockstats.Conn.Threads.{
  Goroutine, Section, called, stored, Shared, System, run_section, Move, lock_call, fetch_call,
  run_call, skip, pass, give_up, ask, lock_store, fetch_store, run_store, call_back, pick, Reach,
  here, later, start,
}

module _ {P : Platform} {C : Type 0} where
  -- The critical sections of a list, the last of it first.
  abbrev pub replay : List (ℕ × Section P) → Conn P C → Conn P C
  replay [] c = c
  replay ((_, s) ∷ log) c = run_section s (replay log c)

  Move-replay :
      {b : Bool} {i : ℕ} {m m' : Shared P C} {g g' : Goroutine P} (c : Conn P C)
      → Move b i m g m' g'
      → (writes g ≡ true → m.copies i ≡ m.conn)
      → m.conn ≡ replay m.log c
      → m'.conn ≡ replay m'.log c
  Move-replay c (lock_call _) f h = h
  Move-replay c fetch_call f h = h
  Move-replay c (run_call {o = o}) f h = ap (run_section (called o)) (f refl ∙ h)
  Move-replay c (skip _) f h = h
  Move-replay c (pass _) f h = h
  Move-replay c (give_up _) f h = h
  Move-replay c (ask _) f h = h
  Move-replay c (lock_store _) f h = h
  Move-replay c fetch_store f h = h
  Move-replay c (run_store {probe = probe}) f h = ap (run_section (stored probe)) (f refl ∙ h)
  Move-replay c (call_back _) f h = h

  -- However the goroutines are interleaved, from a connection whose mutex is free: at each time the
  -- connection is the one that the critical sections so far give, run one after the other in the
  -- order in which they left the mutex.
  pub Reach-replay :
      (b : Bool) (c : Conn P C) (programs : List (List (Call P))) (n : ℕ) (t : System P C)
      → Reach b (start c programs) n t
      → t.shared.conn ≡ replay t.shared.log c
  Reach-replay b c programs n t here = refl
  Reach-replay b c programs _ _ (later {n = n} {t = t} r (pick i at move)) =
      Move-replay c move (λ w. Reach-IsFresh b c programs n t r i (ap some_writes at ∙ w))
        (Reach-replay b c programs _ t r)
