-- ===== src/Conn/Unsupported.antt =====
-- wrap.go where pkg/tcpinfo is not supported.
use sockstats.Common.Int.{ℤ}
use sockstats.Common.{
  suc, ◌+◌, ◌≡◌, refl, sym, ap, ◌∙◌, true, false, none, some, List, [], ◌∷◌, ◌++◌, arith, length,
  length-append,
}
use sockstats.Conn.Effect.{Watches, after, after_all, reported, all_reported, new_report, wrapped}
use sockstats.Conn.History.{session-end}
use sockstats.Conn.Methods.{Call, read_of, write_of, set_reconnects_of, close_of, session}
use sockstats.Conn.Platform.{Platform}
use sockstats.Conn.Report.{Callback, Probe, opened, skips, fresh}
use sockstats.Conn.Reports.{closes}
use sockstats.Conn.State.{NetConn, Conn, Report, World, track_read, track_write}

closes-cons :
    {P : Platform} (o : Call P) (os : List (Call P)) → closes (o ∷ os) ≡ closes (o ∷ []) + closes os
closes-cons (read_of _ _ _) os = omega arith
closes-cons (write_of _ _ _) os = omega arith
closes-cons (set_reconnects_of _) os = omega arith
closes-cons (close_of _ _ _) os = omega arith

module _ {P : Platform} {C : Type 0} where
  -- Nothing was gathered, and nothing will be.
  abbrev pub IsBare : Conn P C → Type 0
  IsBare c =
      (c.opened_info ≡ none)
      × (c.closed_info ≡ none)
      × (c.info_err ≡ none)
      × (c.supports_tcp_info ≡ false)

  after-IsBare : (o : Call P) (c : Conn P C) → IsBare c → IsBare (after true o c)
  unfolding track_read track_write skips
  after-IsBare (read_of n err ts) c h = ground arith
  after-IsBare (write_of n err ts) c h = ground arith
  after-IsBare (set_reconnects_of r) c h = h
  after-IsBare (close_of ts probe err) c h = ground arith

  -- Each closing is reported, and nothing else is.
  reported-closes :
      (o : Call P) (c : Conn P C) → IsBare c → length (reported true o c) ≡ closes (o ∷ [])
  unfolding skips
  reported-closes (read_of n err ts) c h = refl
  reported-closes (write_of n err ts) c h = refl
  reported-closes (set_reconnects_of r) c h = refl
  reported-closes (close_of ts probe err) c h = ground arith

  after_all-IsBare :
      (os : List (Call P)) (c : Conn P C) (rs : List (Report P C))
      → IsBare c
      → IsBare (after_all true os c) × (length (all_reported true os c rs) ≡ length rs + closes os)
  after_all-IsBare [] c rs h = (h, omega arith)
  after_all-IsBare (o ∷ os) c rs h =
      let (bare, count) =
        after_all-IsBare os (after true o c) (reported true o c ++ rs) (after-IsBare o c h) in
      (
        bare,
        omega (
          arith,
          count,
          length-append (reported true o c) rs,
          reported-closes o c h,
          closes-cons o os,
        ),
      )

  wrapped-IsBare :
      (ctx : C) (ncon : NetConn) (now : ℤ) (probe : Probe P)
      → P.supported ≡ false
      → IsBare (wrapped true ctx ncon now probe)
        × (length (new_report true opened probe (fresh ctx ncon now).conn) ≡ 1)
  unfolding skips
  wrapped-IsBare ctx ncon now probe h = ground arith

  -- Where pkg/tcpinfo is not supported, with a callback that returns and changes nothing when it
  -- finds the lock free: in the end of a session neither info is set and there is no InfoErr,
  -- whatever the system calls would give; and the callback was called once for the opening and once
  -- for each and every call of `Close`, also the repeated ones.
  pub session-unsupported :
      (f : Callback P C)
      → Watches (some f)
      → (ctx : C) (ncon : NetConn) (now : ℤ) (probe : Probe P) (os : List (Call P)) (w : World P C)
      → P.supported ≡ false
      → session (some f) ctx ncon now probe os ≡ some w
      → (w.conn.opened_info ≡ none)
        × (w.conn.closed_info ≡ none)
        × (w.conn.info_err ≡ none)
        × (length w.reports ≡ suc (closes os))
  session-unsupported f h ctx ncon now probe os w off e =
      let (bare, one) = wrapped-IsBare ctx ncon now probe off in
      let first = new_report true opened probe (fresh ctx ncon now).conn in
      let ((no_opened, no_closed, no_err, _), count) =
        after_all-IsBare os (wrapped true ctx ncon now probe) (first ++ []) bare in
      let same = session-end (some f) h ctx ncon now probe os w e in
      (
        sym (ap (λ w. w.conn.opened_info) same) ∙ no_opened,
        sym (ap (λ w. w.conn.closed_info) same) ∙ no_closed,
        sym (ap (λ w. w.conn.info_err) same) ∙ no_err,
        omega (arith, ap (λ w. length w.reports) same, count, length-append first [], one),
      )
