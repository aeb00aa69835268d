-- ===== src/Conn/Threads.antt =====
-- wrap.go: goroutines that share one wrapped connection. Each has a list of calls to make; a step of
-- one of them is a taking of the mutex, a read of the fields into a copy of its own, the writing back
-- of a changed copy, or a part of `gatherAndReport` that runs without the mutex. The callback is one
-- that reads the connection under the mutex, as `ToMap` does, and a read of a field without the mutex
-- gives its value at that time.
pub mod Exclusion
pub mod Fresh
pub mod Serial
pub mod Calls
pub mod Interleaved
pub mod Bytes
pub mod Progress
pub mod Race
use sockstats.Common.{
  ℕ, suc, ◌≡◌, Bool, true, false, not, ◌||◌, Option, none, some, List, [], ◌∷◌, ◌==◌, if◌then◌else◌,
  get_elem?, put, map,
}
use sockstats.Conn.Methods.{Call, read_of, write_of, set_reconnects_of, close_of}
use sockstats.Conn.Platform.{Platform}
use sockstats.Conn.Report.{Probe, closed, is_set, skips, store_info}
use sockstats.Conn.State.{Conn, Report, track_read, track_write}

-- Where a goroutine is, with the calls it has still to make.
pub data Goroutine (P : Platform) : Type 0 where
  -- Ahead of the `w.Lock()` of the next call.
  ready : List (Call P) → Goroutine P
  -- Behind it, with the mutex.
  inside : Call P → List (Call P) → Goroutine P
  -- The fields are read, and the changed ones are still to be written.
  changing : Call P → List (Call P) → Goroutine P
  -- In `Close`, ahead of the tests of `gatherAndReport` on the callback, the state and the info.
  checking : Probe P → List (Call P) → Goroutine P
  -- Behind them.
  gathering : Probe P → List (Call P) → Goroutine P
  -- Ahead of the `w.Lock()` of `gatherAndReport`.
  waiting : Probe P → List (Call P) → Goroutine P
  -- Behind it, with the mutex.
  storing : Probe P → List (Call P) → Goroutine P
  -- The fields are read, and the changed ones are still to be written.
  setting : Probe P → List (Call P) → Goroutine P
  -- Ahead of the deferred call of the callback.
  reporting : List (Call P) → Goroutine P

-- A critical section that changes the connection: that of a call, or that of `gatherAndReport`.
pub data Section (P : Platform) : Type 0 where
  called : Call P → Section P
  stored : Probe P → Section P

-- What the goroutines share: the connection, and which of them has the mutex. Beside it stands the
-- copy of the fields that each goroutine has read last; nothing but the mutex keeps others from
-- writing the fields between this read and the writing back. The critical sections, each with its
-- goroutine, and the calls of the callback so far, the latest first, are noted down beside them.
pub record Shared (P : Platform) (C : Type 0) : Type 0 where
  pub conn : Conn P C
  pub holder : Option ℕ
  pub copies : ℕ → Conn P C
  pub log : List (ℕ × Section P)
  pub reports : List (Report P C)

pub record System (P : Platform) (C : Type 0) : Type 0 where
  pub shared : Shared P C
  pub goroutines : List (Goroutine P)

-- Where a goroutine is after the critical section of a call.
abbrev pub behind : {P : Platform} → Call P → List (Call P) → Goroutine P
behind (close_of ts probe err) os = checking probe os
behind _ os = ready os

module _ {P : Platform} {C : Type 0} where
  abbrev pub run_section : Section P → Conn P C → Conn P C
  run_section (called (read_of n err ts)) c = track_read n err ts c
  run_section (called (write_of n err ts)) c = track_write n err ts c
  run_section (called (set_reconnects_of r)) c = record c { reconnects = r }
  run_section (called (close_of ts probe err)) c = record c { closed_at = ts }
  run_section (stored probe) c = store_info closed probe c

  -- The returns of `gatherAndReport` behind the `defer` and ahead of `w.Lock()`.
  abbrev pub gives_up : Probe P → Conn P C → Bool
  gives_up probe c =
      not c.supports_tcp_info || is_set c.info_err || not c.conn.is_tcp || is_set probe.syscall_err

  abbrev pub take : ℕ → Shared P C → Shared P C
  take i m = record m { holder = some i }

  -- The reading of the fields in a critical section.
  abbrev pub copied : ℕ → Shared P C → ℕ → Conn P C
  copied i m j = if i == j then m.conn else m.copies j

  abbrev pub fetch : ℕ → Shared P C → Shared P C
  fetch i m = record m { copies = copied i m }

  -- The writing of what the statements of a critical section make of the fields that were read,
  -- and `w.Unlock()`.
  abbrev pub commit : ℕ → Section P → Shared P C → Shared P C
  commit i s m = record m { conn = run_section s (m.copies i); holder = none; log = (i, s) ∷ m.log }

  abbrev pub note : Shared P C → Shared P C
  note m = record m { reports = record { state = closed; seen = m.conn } ∷ m.reports }

-- A step of the goroutine `i`, where `b` says whether there is a callback.
pub data Move {P : Platform} {C : Type 0} (b : Bool) (i : ℕ)
    : Shared P C → Goroutine P → Shared P C → Goroutine P → Type 0 where
  lock_call :
      {m : Shared P C} {o : Call P} {os : List (Call P)}
      → m.holder ≡ none
      → Move b i m (ready (o ∷ os)) (take i m) (inside o os)
  fetch_call :
      {m : Shared P C} {o : Call P} {os : List (Call P)}
      → Move b i m (inside o os) (fetch i m) (changing o os)
  run_call :
      {m : Shared P C} {o : Call P} {os : List (Call P)}
      → Move b i m (changing o os) (commit i (called o) m) (behind o os)
  skip :
      {m : Shared P C} {probe : Probe P} {os : List (Call P)}
      → (not b || skips closed m.conn) ≡ true
      → Move b i m (checking probe os) m (ready os)
  pass :
      {m : Shared P C} {probe : Probe P} {os : List (Call P)}
      → (not b || skips closed m.conn) ≡ false
      → Move b i m (checking probe os) m (gathering probe os)
  give_up :
      {m : Shared P C} {probe : Probe P} {os : List (Call P)}
      → gives_up probe m.conn ≡ true
      → Move b i m (gathering probe os) m (reporting os)
  ask :
      {m : Shared P C} {probe : Probe P} {os : List (Call P)}
      → gives_up probe m.conn ≡ false
      → Move b i m (gathering probe os) m (waiting probe os)
  lock_store :
      {m : Shared P C} {probe : Probe P} {os : List (Call P)}
      → m.holder ≡ none
      → Move b i m (waiting probe os) (take i m) (storing probe os)
  fetch_store :
      {m : Shared P C} {probe : Probe P} {os : List (Call P)}
      → Move b i m (storing probe os) (fetch i m) (setting probe os)
  run_store :
      {m : Shared P C} {probe : Probe P} {os : List (Call P)}
      → Move b i m (setting probe os) (commit i (stored probe) m) (reporting os)
  call_back :
      {m : Shared P C} {os : List (Call P)}
      → m.holder ≡ none
      → Move b i m (reporting os) (note m) (ready os)

-- A step of the system: one goroutine of it makes a step.
pub data Step {P : Platform} {C : Type 0} (b : Bool) : System P C → System P C → Type 0 where
  pick :
      {m m' : Shared P C} {gs : List (Goroutine P)} {g g' : Goroutine P} (i : ℕ)
      → get_elem? gs i ≡ some g
      → Move b i m g m' g'
      → Step b
          (record { shared = m; goroutines = gs })
          (record { shared = m'; goroutines = put gs i g' })

-- The systems that some steps lead to, with the number of the steps.
pub data Reach {P : Platform} {C : Type 0} (b : Bool) (s : System P C)
    : ℕ → System P C → Type 0 where
  here : Reach b s 0 s
  later : {n : ℕ} {t u : System P C} → Reach b s n t → Step b t u → Reach b s (suc n) u

-- The mutex is free, and each of the goroutines has all of its calls before it.
abbrev pub start : {P : Platform} {C : Type 0} → Conn P C → List (List (Call P)) → System P C
start c programs = record {
  shared = record { conn = c; holder = none; copies = λ i. c; log = []; reports = [] };
  goroutines = map ready programs;
}
