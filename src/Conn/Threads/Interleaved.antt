-- ===== src/Conn/Threads/Interleaved.antt =====
-- wrap.go: the calls on a shared connection are an interleaving of the goroutines' calls.
use mathlib.Core.List.{Permᴰ}
use mathlib.Core.List.Permᴰ
use sockstats.Common.{ℕ, refl, Bool, List, ◌++◌}
use sockstats.Conn.Methods.{Call}
use sockstats.Conn.Platform.{Platform}
use sockstats.Conn.State.{Conn}
use sockstats.Conn.Threads.Calls.{
  all_to_make, made, all_calls, Move-Change, Change-calls, start-all_to_make,
}
use sockstats.Conn.Threads.{System, Step, pick, Reach, here, later, start}

module _ {P : Platform} {C : Type 0} where
  -- The calls that a system has made and those it has still to make.
  abbrev calls_of : System P C → List (Call P)
  calls_of s = made s.shared.log ++ all_to_make s.goroutines

  Step-calls_of : {b : Bool} {s t : System P C} → Step b s t → Permᴰ (calls_of t) (calls_of s)
  Step-calls_of (pick {m = m} {m' = m'} {gs = gs} {g = g} {g' = g'} i at move) =
      Change-calls i m.log m'.log gs g g' _ _ (Move-Change move) at refl refl

  -- However the goroutines are interleaved, from a connection whose mutex is free: at each time the
  -- calls whose critical section has run and those still to be made are together the calls of all
  -- the goroutines, each as often as it is called.
  pub Reach-calls :
      (b : Bool) (c : Conn P C) (programs : List (List (Call P))) (n : ℕ) (t : System P C)
      → Reach b (start c programs) n t
      → Permᴰ (made t.shared.log ++ all_to_make t.goroutines) (all_calls programs)
  Reach-calls b c programs n t here = rw (start-all_to_make programs) (Permᴰ.refl _)
  Reach-calls b c programs _ _ (later {t = t} r step) =
      Permᴰ.trans (Step-calls_of step) (Reach-calls b c programs _ t r)
