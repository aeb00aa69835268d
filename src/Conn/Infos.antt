-- ===== src/Conn/Infos.antt =====
-- wrap.go: when the gathered infos of a connection change.
use sockstats.Common.Int.{ℤ}
use sockstats.Common.{
  ◌≡◌, refl, sym, ◌∙◌, ap, Bool, true, false, Option, some, List, [], ◌∷◌, ◌++◌, arith,
}
use sockstats.Conn.Effect.{
  Watches, free, after, after_report, reported, after_all, all_reported, calls-free,
}
use sockstats.Conn.Methods.{Call, read_of, write_of, set_reconnects_of, close_of, calls}
use sockstats.Conn.Platform.{Platform}
use sockstats.Conn.Report.{Callback, Probe, closed, is_set, skips, store_info}
use sockstats.Conn.State.{Conn, Report, World, GoError, track_read, track_write}

module _ {P : Platform} {C : Type 0} where
  pub after-opened_info :
      (b : Bool) (o : Call P) (c : Conn P C) → (after b o c).opened_info ≡ c.opened_info
  unfolding track_read track_write store_info
  after-opened_info b (read_of n err ts) c = ground arith
  after-opened_info b (write_of n err ts) c = ground arith
  after-opened_info b (set_reconnects_of r) c = refl
  after-opened_info b (close_of ts probe err) c = ground arith

  pub track_read-closed_info :
      (n ts : ℤ) (err : Option GoError) (c : Conn P C)
      → (track_read n err ts c).closed_info ≡ c.closed_info
  unfolding track_read
  track_read-closed_info n ts err c = ground arith

  pub track_write-closed_info :
      (n ts : ℤ) (err : Option GoError) (c : Conn P C)
      → (track_write n err ts c).closed_info ≡ c.closed_info
  unfolding track_write
  track_write-closed_info n ts err c = ground arith

  after_report-closed_info :
      (b : Bool) (probe : Probe P) (c : Conn P C)
      → is_set c.closed_info ≡ true
      → (after_report b closed probe c).closed_info ≡ c.closed_info
  unfolding skips
  after_report-closed_info b probe c h = ground arith

  -- A connection that has its `ClosedInfo`: it keeps it, and no call reports.
  after-closed_info :
      (b : Bool) (o : Call P) (c : Conn P C)
      → is_set c.closed_info ≡ true
      → ((after b o c).closed_info ≡ c.closed_info) × (reported b o c ≡ [])
  unfolding skips
  after-closed_info b (read_of n err ts) c h = (track_read-closed_info n ts err c, refl)
  after-closed_info b (write_of n err ts) c h = (track_write-closed_info n ts err c, refl)
  after-closed_info b (set_reconnects_of r) c h = (refl, refl)
  after-closed_info b (close_of ts probe err) c h =
      (after_report-closed_info b probe (record c { closed_at = ts }) h, ground arith)

  after_all-opened_info :
      (b : Bool) (os : List (Call P)) (c : Conn P C)
      → (after_all b os c).opened_info ≡ c.opened_info
  after_all-opened_info b [] c = refl
  after_all-opened_info b (o ∷ os) c = after_all-opened_info b os _ ∙ after-opened_info b o c

  after_all-closed_info :
      (b : Bool) (os : List (Call P)) (c : Conn P C) (rs : List (Report P C))
      → is_set c.closed_info ≡ true
      → ((after_all b os c).closed_info ≡ c.closed_info) × (all_reported b os c rs ≡ rs)
  after_all-closed_info b [] c rs h = (refl, refl)
  after_all-closed_info b (o ∷ os) c rs h =
      let (same, silent) = after-closed_info b o c h in
      let (later, quiet) =
        after_all-closed_info b os (after b o c) (reported b o c ++ rs) (ap is_set same ∙ h) in
      (later ∙ same, quiet ∙ ap (λ l. l ++ rs) silent)

  -- Once there is an error in `InfoErr`, no call changes the infos or the error.
  after-info_err :
      (b : Bool) (o : Call P) (c : Conn P C)
      → is_set c.info_err ≡ true
      → ((after b o c).info_err ≡ c.info_err) × ((after b o c).closed_info ≡ c.closed_info)
  unfolding track_read track_write skips
  after-info_err b (read_of n err ts) c h = ground arith
  after-info_err b (write_of n err ts) c h = ground arith
  after-info_err b (set_reconnects_of r) c h = (refl, refl)
  after-info_err b (close_of ts probe err) c h = ground arith

  after_all-info_err :
      (b : Bool) (os : List (Call P)) (c : Conn P C)
      → is_set c.info_err ≡ true
      → ((after_all b os c).info_err ≡ c.info_err)
        × ((after_all b os c).closed_info ≡ c.closed_info)
  after_all-info_err b [] c h = (refl, refl)
  after_all-info_err b (o ∷ os) c h =
      let (same, shut) = after-info_err b o c h in
      let (later, still) = after_all-info_err b os (after b o c) (ap is_set same ∙ h) in
      (later ∙ same, still ∙ shut)

  calls-end :
      (r : Option (Callback P C))
      → Watches r
      → (os : List (Call P)) (w w' : World P C) → w.locked ≡ false
      → calls r os w ≡ some w'
      → w' ≡ free (after_all (is_set r) os w.conn) (all_reported (is_set r) os w.conn w.reports)
  calls-end r h os w w' l e =
      let known = calls-free r h os w.conn w.reports in
      let start : w ≡ free w.conn w.reports = ap (λ b. record w { locked = b }) l in
      let e' : calls r os (free w.conn w.reports) ≡ some w' = ap (calls r os) (sym start) ∙ e in cc

  -- With no callback, or one that returns and changes nothing when it finds the lock free: the
  -- calls on a connection whose lock is free never change its `OpenedInfo`.
  pub calls-opened_info :
      (r : Option (Callback P C))
      → Watches r
      → (os : List (Call P)) (w w' : World P C) → w.locked ≡ false
      → calls r os w ≡ some w'
      → w'.conn.opened_info ≡ w.conn.opened_info
  calls-opened_info r h os w w' l e =
      ap (λ w. w.conn.opened_info) (calls-end r h os w w' l e)
      ∙ after_all-opened_info (is_set r) os w.conn

  -- With no callback, or one that returns and changes nothing when it finds the lock free: when a
  -- connection whose lock is free has a `ClosedInfo`, calls on it that are made one after the other
  -- leave that as it is, and the callback is not called any more. Calls of several goroutines at
  -- once are not meant.
  pub calls-closed_info :
      (r : Option (Callback P C))
      → Watches r
      → (os : List (Call P)) (w w' : World P C) → w.locked ≡ false
      → calls r os w ≡ some w'
      → is_set w.conn.closed_info ≡ true
      → (w'.conn.closed_info ≡ w.conn.closed_info) × (w'.reports ≡ w.reports)
  calls-closed_info r h os w w' l e shut =
      let final = calls-end r h os w w' l e in
      let kept = after_all-closed_info (is_set r) os w.conn w.reports shut in
      (ap (λ w. w.conn.closed_info) final ∙ kept.0, ap (λ w. w.reports) final ∙ kept.1)

  -- With no callback, or one that returns and changes nothing when it finds the lock free: once a
  -- connection whose lock is free has an error in `InfoErr`, the calls on it change neither that
  -- error nor either of the infos.
  pub calls-info_err :
      (r : Option (Callback P C))
      → Watches r
      → (os : List (Call P)) (w w' : World P C) → w.locked ≡ false
      → calls r os w ≡ some w'
      → is_set w.conn.info_err ≡ true
      → (w'.conn.info_err ≡ w.conn.info_err)
        × (w'.conn.opened_info ≡ w.conn.opened_info)
        × (w'.conn.closed_info ≡ w.conn.closed_info)
  calls-info_err r h os w w' l e f =
      let final = calls-end r h os w w' l e in
      let kept = after_all-info_err (is_set r) os w.conn f in
      (
        ap (λ w. w.conn.info_err) final ∙ kept.0,
        ap (λ w. w.conn.opened_info) final ∙ after_all-opened_info (is_set r) os w.conn,
        ap (λ w. w.conn.closed_info) final ∙ kept.1,
      )
