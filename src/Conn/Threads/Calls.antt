-- ===== src/Conn/Threads/Calls.antt =====
-- wrap.go: the calls that goroutines have made on a shared connection, and those they have to make.
use mathlib.Core.List.{Permᴰ}
use mathlib.Core.List.Permᴰ
use sockstats.Common.{
  ℕ, zero, suc, ◌≡◌, refl, sym, ap, ◌∙◌, Bool, some, List, [], ◌∷◌, ◌++◌, get_elem?, put, arith,
  map,
}
use sockstats.Conn.Methods.{Call, read_of, write_of, set_reconnects_of, close_of}
use sockstats.Conn.Platform.{Platform}
use sockstats.Conn.Report.{Probe}
use sockstats.Conn.Threads.{
  Goroutine, ready, inside, changing, checking, gathering, waiting, storing, setting, reporting,
  Section, called, stored, Shared, behind, Move, lock_call, fetch_call, fetch_store, run_call, skip,
  pass, give_up, ask, lock_store, run_store, call_back,
}

module _ {P : Platform} where
  -- The calls of a goroutine whose critical section is still to run.
  abbrev pub to_make : Goroutine P → List (Call P)
  to_make (ready os) = os
  to_make (inside o os) = o ∷ os
  to_make (changing o os) = o ∷ os
  to_make (checking _ os) = os
  to_make (gathering _ os) = os
  to_make (waiting _ os) = os
  to_make (storing _ os) = os
  to_make (setting _ os) = os
  to_make (reporting os) = os

  abbrev pub all_to_make : List (Goroutine P) → List (Call P)
  all_to_make [] = []
  all_to_make (g ∷ gs) = to_make g ++ all_to_make gs

  -- The calls whose critical section has run, the latest first.
  abbrev pub made : List (ℕ × Section P) → List (Call P)
  made [] = []
  made ((_, called o) ∷ log) = o ∷ made log
  made ((_, stored _) ∷ log) = made log

  abbrev pub all_calls : List (List (Call P)) → List (Call P)
  all_calls [] = []
  all_calls (os ∷ programs) = os ++ all_calls programs

  behind-to_make : (o : Call P) (os : List (Call P)) → to_make (behind o os) ≡ os
  behind-to_make (read_of _ _ _) os = refl
  behind-to_make (write_of _ _ _) os = refl
  behind-to_make (set_reconnects_of _) os = refl
  behind-to_make (close_of _ _ _) os = refl

  all_to_make-put_same :
      (gs : List (Goroutine P)) (i : ℕ) (g g' : Goroutine P)
      → get_elem? gs i ≡ some g
      → to_make g' ≡ to_make g
      → all_to_make (put gs i g') ≡ all_to_make gs
  all_to_make-put_same [] i g g' at same = refl
  all_to_make-put_same (x ∷ gs) zero g g' at same = cc
  all_to_make-put_same (x ∷ gs) (suc i) g g' at same =
      ap (λ os. to_make x ++ os) (all_to_make-put_same gs i g g' at same)

  all_to_make-put_next :
      (gs : List (Goroutine P)) (i : ℕ) (g g' : Goroutine P) (o : Call P)
      → get_elem? gs i ≡ some g
      → to_make g ≡ o ∷ to_make g'
      → Permᴰ (all_to_make gs) (o ∷ all_to_make (put gs i g'))
  all_to_make-put_next [] i g g' o at next = ground arith
  all_to_make-put_next (x ∷ gs) zero g g' o at next =
      let e : to_make x ≡ o ∷ to_make g' = cc in rw e (Permᴰ.refl _)
  all_to_make-put_next (x ∷ gs) (suc i) g g' o at next =
      Permᴰ.trans (Permᴰ.append_left (to_make x) (all_to_make-put_next gs i g g' o at next))
        (Permᴰ.middle o (to_make x) (all_to_make (put gs i g')))

  pub start-all_to_make :
      (programs : List (List (Call P))) → all_to_make (map ready programs) ≡ all_calls programs
  start-all_to_make [] = refl
  start-all_to_make (os ∷ programs) = ap (λ l. os ++ l) (start-all_to_make programs)

  -- A step makes the next call of its goroutine, or none.
  pub data Change (i : ℕ)
      : List (ℕ × Section P) → List (Call P) → List (ℕ × Section P) → List (Call P) → Type 0 where
    same : {log : List (ℕ × Section P)} {os : List (Call P)} → Change i log os log os
    stores :
        {log : List (ℕ × Section P)} {os : List (Call P)} {probe : Probe P}
        → Change i log os ((i, stored probe) ∷ log) os
    makes :
        {log : List (ℕ × Section P)} {os : List (Call P)} {o : Call P}
        → Change i log (o ∷ os) ((i, called o) ∷ log) os

module _ {P : Platform} {C : Type 0} where
  pub Move-Change :
      {b : Bool} {i : ℕ} {m m' : Shared P C} {g g' : Goroutine P}
      → Move b i m g m' g'
      → Change i m.log (to_make g) m'.log (to_make g')
  Move-Change (lock_call _) = same
  Move-Change fetch_call = same
  Move-Change fetch_store = same
  Move-Change (run_call {o = o} {os = os}) = rw (behind-to_make o os) makes
  Move-Change (skip _) = same
  Move-Change (pass _) = same
  Move-Change (give_up _) = same
  Move-Change (ask _) = same
  Move-Change (lock_store _) = same
  Move-Change run_store = stores
  Move-Change (call_back _) = same

module _ {P : Platform} where
  -- What a step does to the calls of all the goroutines, and to those of each.
  pub Change-calls :
      (i : ℕ) (log log' : List (ℕ × Section P)) (gs : List (Goroutine P)) (g g' : Goroutine P)
      (os os' : List (Call P))
      → Change i log os log' os'
      → get_elem? gs i ≡ some g
      → to_make g ≡ os
      → to_make g' ≡ os'
      → Permᴰ (made log' ++ all_to_make (put gs i g')) (made log ++ all_to_make gs)
  Change-calls i log _ gs g g' _ os same at e e' =
      rw (all_to_make-put_same gs i g g' at (e' ∙ sym e)) (Permᴰ.refl _)
  Change-calls i log _ gs g g' _ os stores at e e' =
      rw (all_to_make-put_same gs i g g' at (e' ∙ sym e)) (Permᴰ.refl _)
  Change-calls i log _ gs g g' _ os (makes {o = o}) at e e' =
      Permᴰ.trans (Permᴰ.symm (Permᴰ.middle o (made log) (all_to_make (put gs i g')))) (
        Permᴰ.append_left (made log)
          (Permᴰ.symm (all_to_make-put_next gs i g g' o at (e ∙ ap (λ l. o ∷ l) (sym e')))))
