-- ===== src/Conn/Threads/Race.antt =====
-- wrap.go: two goroutines that close a shared connection.
use mathlib.Core.Path.{subst}
use sockstats.Common.Int.{ℤ}
use sockstats.Common.{
  ℕ, suc, ◌≡◌, ◌∙◌, ap, refl, arith, not, ◌||◌, get_elem?, put, get_elem?-put_same, true, false,
  Option, none, some, List, [], ◌∷◌,
}
use sockstats.Conn.Methods.{Call, close_of}
use sockstats.Conn.Platform.{Platform}
use sockstats.Conn.Report.{Probe, closed, skips, store_info}
use sockstats.Conn.State.{GoError, Conn, Report}
use sockstats.Conn.Threads.{
  Goroutine, ready, gathering, waiting, storing, setting, reporting, called, stored, Shared, System,
  gives_up, copied, lock_call, fetch_call, run_call, pass, ask, lock_store, fetch_store, run_store,
  call_back, pick, Reach, here, later, start,
}

-- The system answers the gathering with the given info.
pub record Answers {P : Platform} (probe : Probe P) (s : P.SysInfo) : Type 0 where
  pub syscall : probe.syscall_err ≡ none
  pub control : probe.control_err ≡ none
  pub got : probe.tcp_err ≡ none
  pub info : probe.sys_info ≡ some s

module _ {P : Platform} where
  -- The goroutines while the one at a place goes from `gathering` to its end.
  abbrev asked : List (Goroutine P) → ℕ → Probe P → List (Goroutine P)
  asked gs i probe =
      put
        (put (put (put (put gs i (waiting probe [])) i (storing probe [])) i (setting probe [])) i
          (reporting []))
        i (ready [])

  -- Two goroutines that call `Close` once each.
  abbrev pub closers :
      ℤ → ℤ → Probe P → Probe P → Option GoError → Option GoError → List (List (Call P))
  closers ts ts' probe probe' err err' =
      (close_of ts probe err ∷ []) ∷ (close_of ts' probe' err' ∷ []) ∷ []

module _ {P : Platform} {C : Type 0} where
  -- The connection can be asked for its info, and has none of a closing.
  pub record CanClose (c : Conn P C) : Type 0 where
    pub supported : c.supports_tcp_info ≡ true
    pub no_error : c.info_err ≡ none
    pub tcp : c.conn.is_tcp ≡ true
    pub unset : c.closed_info ≡ none

  store_info-Answers :
      (probe : Probe P) (x : P.SysInfo) (c : Conn P C)
      → Answers probe x
      → store_info closed probe c ≡ record c { closed_info = some (P.to_info x) }
  unfolding store_info
  store_info-Answers probe x c a = rw (a.control, store_info, a.got, a.info) refl

  -- The connection is told the info of a closing, and the callback with it.
  abbrev told : ℕ → Probe P → P.SysInfo → Shared P C → Shared P C
  told i probe x m =
      let c = record m.conn { closed_info = some (P.to_info x) } in
      record {
        conn = c;
        holder = none;
        copies = copied i m;
        log = (i, stored probe) ∷ m.log;
        reports = record { state = closed; seen = c } ∷ m.reports;
      }

  -- A goroutine writes what it makes of the fields that it has just read.
  fetched :
      (i : ℕ) (m : Shared P C) (probe : Probe P)
      → store_info closed probe (copied i m i) ≡ store_info closed probe m.conn
  fetched i m probe = ap (store_info closed probe) mine
    where
      mine : copied i m i ≡ m.conn
      mine = ground arith

  -- A goroutine that has passed the tests gets its info, whatever the others have done meanwhile.
  gather_run :
      (s : System P C) (n i : ℕ) (m : Shared P C) (gs : List (Goroutine P)) (probe : Probe P)
      (x : P.SysInfo)
      → gives_up probe m.conn ≡ false
      → m.holder ≡ none
      → Answers probe x
      → get_elem? gs i ≡ some (gathering probe [])
      → Reach true s n (record { shared = m; goroutines = gs })
      → Reach true s
          (suc (suc (suc (suc (suc n)))))
          (record { shared = told i probe x m; goroutines = asked gs i probe })
  gather_run s n i m gs probe x goes free a at r =
      let at₁ = get_elem?-put_same gs i _ (waiting probe []) at in
      let at₂ = get_elem?-put_same _ i _ (storing probe []) at₁ in
      let at₃ = get_elem?-put_same _ i _ (setting probe []) at₂ in
      let at₄ = get_elem?-put_same _ i _ (reporting []) at₃ in
      let one = later r (pick i at (ask goes)) in
      let two = later one (pick i at₁ (lock_store free)) in
      let three = later two (pick i at₂ fetch_store) in
      let four = later three (pick i at₃ run_store) in
      subst
        (λ c. Reach true s (suc (suc (suc (suc (suc n))))) (record {
          shared = record {
            conn = c;
            holder = none;
            copies = copied i m;
            log = (i, stored probe) ∷ m.log;
            reports = record { state = closed; seen = c } ∷ m.reports;
          };
          goroutines = asked gs i probe;
        }))
        (fetched i m probe ∙ store_info-Answers probe x m.conn a)
        (later four (pick i at₄ (call_back refl)))

  passes : (c : Conn P C) → c.closed_info ≡ none → (not true || skips closed c) ≡ false
  unfolding skips
  passes c unset = rw unset refl

  goes_on :
      (probe : Probe P) (x : P.SysInfo) (c : Conn P C)
      → CanClose c
      → Answers probe x
      → gives_up probe c ≡ false
  goes_on probe x c ok a = rw (ok.supported, ok.no_error, ok.tcp, a.syscall) refl

  module _ (ts ts' : ℤ) (probe probe' : Probe P) (err err' : Option GoError) where
    -- What the goroutines share when one, and when both, have passed the tests of `gatherAndReport`.
    abbrev first_pass : Conn P C → Shared P C
    first_pass c = record {
      conn = record c { closed_at = ts };
      holder = none;
      copies = copied 0 (start {P = P} c []).shared;
      log = (0, called (close_of ts probe err)) ∷ [];
      reports = [];
    }

    abbrev both_pass : Conn P C → Shared P C
    both_pass c = record {
      conn = record c { closed_at = ts' };
      holder = none;
      copies = copied 1 (first_pass c);
      log = (1, called (close_of ts' probe' err')) ∷ (0, called (close_of ts probe err)) ∷ [];
      reports = [];
    }

    pass_both :
        (c : Conn P C)
        → c.closed_info ≡ none
        → Reach true (start c (closers ts ts' probe probe' err err')) 8 (record {
          shared = both_pass c;
          goroutines = gathering probe [] ∷ gathering probe' [] ∷ [];
        })
    pass_both c unset =
        let one = later here (pick 0 refl (lock_call refl)) in
        let two = later one (pick 0 refl fetch_call) in
        let three = later two (pick 0 refl run_call) in
        let four = later three (pick 0 refl (pass (passes (record c { closed_at = ts }) unset))) in
        let five = later four (pick 1 refl (lock_call refl)) in
        let six = later five (pick 1 refl fetch_call) in
        let seven = later six (pick 1 refl run_call) in
        later seven (pick 1 refl (pass (passes (record c { closed_at = ts' }) unset)))

  -- On a TCP connection that has no `ClosedInfo` yet and no `InfoErr`, where the platform gives
  -- infos and there is a callback: two goroutines that call `Close` once each, and get an info from
  -- the system each, can be interleaved such that the callback is called for both closings, with a
  -- different info each time, and the info of the second replaces that of the first.
  pub two_closes :
      (ts ts' : ℤ) (probe probe' : Probe P) (err err' : Option GoError) (c : Conn P C)
      (x x' : P.SysInfo)
      → CanClose c
      → Answers probe x
      → Answers probe' x'
      → (t : System P C) × Reach true (start c (closers ts ts' probe probe' err err')) 18 t
        × (first : Report P C) × (second : Report P C) × (t.shared.reports ≡ second ∷ first ∷ [])
        × (first.seen.closed_info ≡ some (P.to_info x))
        × (second.seen.closed_info ≡ some (P.to_info x'))
        × (t.shared.conn.closed_info ≡ some (P.to_info x'))
  two_closes ts ts' probe probe' err err' c x x' ok a a' =
      let m = both_pass ts ts' probe probe' err err' c in
      let gs = gathering probe [] ∷ gathering probe' [] ∷ [] in
      let ok₁ : CanClose m.conn = record {
        supported = ok.supported;
        no_error = ok.no_error;
        tcp = ok.tcp;
        unset = ok.unset;
      } in
      let one =
        gather_run _ 8 0 m gs probe x (goes_on probe x m.conn ok₁ a) refl a refl
          (pass_both ts ts' probe probe' err err' c ok.unset) in
      let m₁ = told 0 probe x m in
      let two =
        gather_run _ 13 1 m₁ (asked gs 0 probe) probe' x' (goes_on probe' x' m.conn ok₁ a') refl a'
          refl one in
      (_, two, _, _, refl, refl, refl, refl)
