-- ===== src/Conn/Threads/Progress.antt =====
-- wrap.go: goroutines that share a connection come to the end of their calls.
use sockstats.Common.{
  ℕ, zero, suc, ◌+◌, ◌*◌, ◌≤◌, ◌<◌, ◌≡◌, refl, sym, ap, ◌∙◌, ◌⊎◌, Bool, true, false, not, ◌||◌,
  none, some, List, [], ◌∷◌, get_elem?, map, length, length-append, sum_of, sum_of-put, All,
  All-or_place, Option-cases, Bool-cases, inl, inr, arith, ◌==◌,
}
use sockstats.Conn.Methods.{Call, read_of, write_of, set_reconnects_of, close_of}
use sockstats.Conn.Platform.{Platform}
use sockstats.Conn.Report.{closed, skips}
use sockstats.Conn.State.{Conn}
use sockstats.Conn.Threads.Calls.{all_calls}
use sockstats.Conn.Threads.Exclusion.{holds, some_holds, is_holder, IsLocked, Reach-IsLocked}
use sockstats.Conn.Threads.{
  Goroutine, ready, inside, changing, checking, gathering, waiting, storing, setting, reporting,
  Shared, System, behind, gives_up, Move, lock_call, fetch_call, fetch_store, run_call, skip, pass,
  give_up, ask, lock_store, run_store, call_back, Step, pick, Reach, here, later, start,
}

module _ {P : Platform} where
  abbrev pub is_done : Goroutine P → Bool
  is_done (ready []) = true
  is_done _ = false

  -- As many steps as a goroutine can still make, or more.
  abbrev work : Goroutine P → ℕ
  work (ready os) = length os * 9
  work (inside _ os) = 8 + length os * 9
  work (changing _ os) = 7 + length os * 9
  work (checking _ os) = 6 + length os * 9
  work (gathering _ os) = 5 + length os * 9
  work (waiting _ os) = 4 + length os * 9
  work (storing _ os) = 3 + length os * 9
  work (setting _ os) = 2 + length os * 9
  work (reporting os) = 1 + length os * 9

  behind-work : (o : Call P) (os : List (Call P)) → work (behind o os) < work (changing o os)
  behind-work (read_of _ _ _) os = omega arith
  behind-work (write_of _ _ _) os = omega arith
  behind-work (set_reconnects_of _) os = omega arith
  behind-work (close_of _ _ _) os = omega arith

  start-work :
      (programs : List (List (Call P)))
      → sum_of work (map ready programs) ≡ length (all_calls programs) * 9
  start-work [] = refl
  start-work (os ∷ programs) =
      omega (arith, start-work programs, length-append os (all_calls programs))

module _ {P : Platform} {C : Type 0} where
  Move-work :
      {b : Bool} {i : ℕ} {m m' : Shared P C} {g g' : Goroutine P}
      → Move b i m g m' g'
      → work g' < work g
  Move-work (lock_call _) = omega arith
  Move-work fetch_call = omega arith
  Move-work fetch_store = omega arith
  Move-work (run_call {o = o} {os = os}) = behind-work o os
  Move-work (skip _) = omega arith
  Move-work (pass _) = omega arith
  Move-work (give_up _) = omega arith
  Move-work (ask _) = omega arith
  Move-work (lock_store _) = omega arith
  Move-work run_store = omega arith
  Move-work (call_back _) = omega arith

  Step-work :
      {b : Bool} {s t : System P C}
      → Step b s t
      → sum_of work t.goroutines < sum_of work s.goroutines
  Step-work (pick {gs = gs} {g = g} {g' = g'} i at move) =
      omega (arith, sum_of-put work gs i g g' at, Move-work move)

  Reach-work :
      (b : Bool) (c : Conn P C) (programs : List (List (Call P))) (n : ℕ) (t : System P C)
      → Reach b (start c programs) n t
      → n + sum_of work t.goroutines ≤ length (all_calls programs) * 9
  Reach-work b c programs n t here = omega (arith, start-work programs)
  Reach-work b c programs _ _ (later {t = t} r step) =
      omega (arith, Reach-work b c programs _ t r, Step-work step)

  -- A goroutine that does not wait for the mutex can make a step.
  abbrev Moves : Bool → ℕ → Shared P C → Goroutine P → Type 0
  Moves b i m g = (m' : Shared P C) × (g' : Goroutine P) × Move b i m g m' g'

  free-Moves :
      (b : Bool) (i : ℕ) (m : Shared P C) (g : Goroutine P)
      → m.holder ≡ none
      → is_done g ≡ false
      → Moves b i m g
  free-Moves b i m (ready []) h d = absurd (ground arith)
  free-Moves b i m (ready (o ∷ os)) h d = (_, _, lock_call h)
  free-Moves b i m (inside o os) h d = (_, _, fetch_call)
  free-Moves b i m (changing o os) h d = (_, _, run_call)
  free-Moves b i m (checking probe os) h d = elim (Bool-cases (not b || skips closed m.conn)) [
    | inl e ↦ (_, _, skip e)
    | inr e ↦ (_, _, pass e)
  ]
  free-Moves b i m (gathering probe os) h d = elim (Bool-cases (gives_up probe m.conn)) [
    | inl e ↦ (_, _, give_up e)
    | inr e ↦ (_, _, ask e)
  ]
  free-Moves b i m (waiting probe os) h d = (_, _, lock_store h)
  free-Moves b i m (storing probe os) h d = (_, _, fetch_store)
  free-Moves b i m (setting probe os) h d = (_, _, run_store)
  free-Moves b i m (reporting os) h d = (_, _, call_back h)

  held-Moves :
      (b : Bool) (i : ℕ) (m : Shared P C) (g : Goroutine P) → holds g ≡ true → Moves b i m g
  held-Moves b i m (inside o os) h = (_, _, fetch_call)
  held-Moves b i m (changing o os) h = (_, _, run_call)
  held-Moves b i m (storing probe os) h = (_, _, fetch_store)
  held-Moves b i m (setting probe os) h = (_, _, run_store)
  held-Moves b i m (ready _) h = absurd (ground arith)
  held-Moves b i m (checking _ _) h = absurd (ground arith)
  held-Moves b i m (gathering _ _) h = absurd (ground arith)
  held-Moves b i m (waiting _ _) h = absurd (ground arith)
  held-Moves b i m (reporting _) h = absurd (ground arith)

  abbrev Next : Bool → System P C → Type 0
  Next b t = (u : System P C) × Step b t u

  step_at :
      (b : Bool) (t : System P C) (i : ℕ) (g : Goroutine P)
      → get_elem? t.goroutines i ≡ some g
      → Moves b i t.shared g
      → Next b t
  step_at b t i g at (m', g', move) = (_, pick i at move)

  IsLocked-Next :
      (b : Bool) (t : System P C) → IsLocked t → All (λ g. is_done g ≡ true) t.goroutines ⊎ Next b t
  IsLocked-Next b t locked = elim (Option-cases t.shared.holder) [
    | inl free ↦ elim (All-or_place is_done t.goroutines) [
      | inl all ↦ inl all
      | inr (i, g, at, left) ↦ inr (step_at b t i g at (free-Moves b i t.shared g free left))
    ]
    | inr (k, held) ↦
        let taken = locked k ∙ ap (λ h. is_holder h k) held ∙ same k in
        elim (Option-cases (get_elem? t.goroutines k)) [
          | inl nobody ↦ absurd (none_false (sym (ap some_holds nobody) ∙ taken))
          | inr (g, at) ↦
              inr (step_at b t k g at (held-Moves b k t.shared g (sym (ap some_holds at) ∙ taken)))
        ]
  ]
    where
      same : (k : ℕ) → (k == k) ≡ true
      same k = ground arith

      none_false : false ≡ true → ⊥
      none_false e = ground arith

  -- A system that some steps lead to, with all the calls made.
  abbrev pub Completes : Bool → System P C → Type 0
  Completes b s =
      (n : ℕ) × (u : System P C) × Reach b s n u × All (λ g. is_done g ≡ true) u.goroutines

  Reach-Completes :
      (k : ℕ) (b : Bool) (c : Conn P C) (programs : List (List (Call P))) (n : ℕ) (t : System P C)
      → Reach b (start c programs) n t
      → sum_of work t.goroutines < k
      → Completes b (start c programs)
  Reach-Completes zero b c programs n t r left = absurd (omega arith)
  Reach-Completes (suc k) b c programs n t r left =
      elim (IsLocked-Next b t (Reach-IsLocked b c programs n t r).0) [
        | inl done ↦ (n, t, r, done)
        | inr (u, step) ↦
            Reach-Completes k b c programs (suc n) u (later r step)
              (omega (arith, left, Step-work step))
      ]

  -- However the goroutines are interleaved, from a connection whose mutex is free: each call takes
  -- 9 steps at most, so that every interleaving comes to an end; at each time either all the
  -- goroutines have made all of their calls or one of them can make a step, so that there is no
  -- deadlock; and there is an interleaving in which all of them make all of their calls.
  pub Reach-progress :
      (b : Bool) (c : Conn P C) (programs : List (List (Call P))) (n : ℕ) (t : System P C)
      → Reach b (start c programs) n t
      → (n ≤ length (all_calls programs) * 9)
        × (All (λ g. is_done g ≡ true) t.goroutines ⊎ ((u : System P C) × Step b t u))
        × Completes b (start c programs)
  Reach-progress b c programs n t r = (
    omega (arith, Reach-work b c programs n t r),
    IsLocked-Next b t (Reach-IsLocked b c programs n t r).0,
    Reach-Completes (suc (sum_of work t.goroutines)) b c programs n t r (omega arith),
  )
