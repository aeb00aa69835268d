-- ===== src/Conn/Reports.antt =====
-- wrap.go: the calls of the callback in a session.
use sockstats.Common.Int.{ℤ}
use sockstats.Common.{
  ℕ, suc, ◌≤◌, ◌<◌, ◌≡◌, refl, sym, ◌∙◌, ap, Bool, true, false, some, List, [], ◌∷◌, ◌++◌, arith,
  All, All-append, length, length-append, ltb,
}
use mathlib.Core.List.{append_assoc}
use sockstats.Conn.Effect.{Watches, gathered, new_report, all_reported, wrapped}
use sockstats.Conn.History.{session-end}
use sockstats.Conn.Infos.{track_read-closed_info, track_write-closed_info}
use sockstats.Conn.Methods.{Call, read_of, write_of, set_reconnects_of, close_of, session}
use sockstats.Conn.Platform.{Platform}
use sockstats.Conn.Report.{Callback, Probe, closed, opened, is_set, skips, fresh, store_info}
use sockstats.Conn.State.{NetConn, Conn, Report, World}

abbrev pub closes : {P : Platform} → List (Call P) → ℕ
closes [] = 0
closes (close_of _ _ _ ∷ os) = suc (closes os)
closes (_ ∷ os) = closes os

module _ {P : Platform} {C : Type 0} where
  abbrev pub IsClosing : Report P C → Type 0
  IsClosing r = r.state ≡ closed

  -- The reports `later` of some calls: all of a closing, no more than there are closings, and one
  -- at least where there is a callback, a closing and no `ClosedInfo` before.
  abbrev Closings : Bool → List (Call P) → Conn P C → List (Report P C) → Type 0
  Closings b os c later =
      All IsClosing later
      × (length later ≤ closes os)
      × (b ≡ true → is_set c.closed_info ≡ false → 0 < closes os → 0 < length later)

  new_report-Closings :
      (b : Bool) (probe : Probe P) (c : Conn P C)
      → All IsClosing (new_report b closed probe c)
        × (length (new_report b closed probe c) ≤ 1)
        × (b ≡ true → is_set c.closed_info ≡ false → 0 < length (new_report b closed probe c))
  unfolding skips
  new_report-Closings b probe c = ground arith

  abbrev Split : Bool → List (Call P) → Conn P C → List (Report P C) → Type 0
  Split b os c rs =
      (later : List (Report P C)) × (all_reported b os c rs ≡ later ++ rs) × Closings b os c later

  -- A call that does not close.
  Split-other :
      (b : Bool) (os : List (Call P)) (c c' : Conn P C) (rs : List (Report P C))
      → c'.closed_info ≡ c.closed_info
      → Split b os c' rs
      → (later : List (Report P C)) × (all_reported b os c' rs ≡ later ++ rs)
        × Closings b os c later
  Split-other b os c c' rs same (later, e, (all, most, least)) =
      (later, e, (all, most, λ k h. least k (ap is_set same ∙ h)))

  Split-close :
      (b : Bool) (ts : ℤ) (probe : Probe P) (os : List (Call P)) (c c' : Conn P C)
      (rs new : List (Report P C))
      → All IsClosing new
        × (length new ≤ 1)
        × (b ≡ true → is_set c.closed_info ≡ false → 0 < length new)
      → Split b os c' (new ++ rs)
      → (later : List (Report P C)) × (all_reported b os c' (new ++ rs) ≡ later ++ rs)
        × (All IsClosing later
            × (length later ≤ suc (closes os))
            × (b ≡ true → is_set c.closed_info ≡ false → 0 < suc (closes os) → 0 < length later))
  Split-close b ts probe os c c' rs new (is, one, some_new) (later, e, (all, most, least)) = (
    later ++ new,
    e ∙ sym (append_assoc later new rs),
    (
      All-append IsClosing later new all is,
      omega (arith, length-append later new),
      λ k h _. omega (arith, length-append later new, some_new k h),
    ),
  )

  all_reported-Split :
      (b : Bool) (os : List (Call P)) (c : Conn P C) (rs : List (Report P C)) → Split b os c rs
  all_reported-Split b [] c rs = ([], refl, (tt, omega arith, λ _ _ h. h))
  all_reported-Split b (read_of n err ts ∷ os) c rs =
      Split-other b os c _ rs (track_read-closed_info n ts err c) (all_reported-Split b os _ rs)
  all_reported-Split b (write_of n err ts ∷ os) c rs =
      Split-other b os c _ rs (track_write-closed_info n ts err c) (all_reported-Split b os _ rs)
  all_reported-Split b (set_reconnects_of r ∷ os) c rs =
      Split-other b os c _ rs refl (all_reported-Split b os _ rs)
  all_reported-Split b (close_of ts probe err ∷ os) c rs =
      Split-close b ts probe os c _ rs _ (new_report-Closings b probe (record c { closed_at = ts }))
        (all_reported-Split b os _ _)

  wrapped-report :
      (ctx : C) (ncon : NetConn) (now : ℤ) (probe : Probe P)
      → (seen : Conn P C) × (new_report true opened probe (fresh ctx ncon now).conn
          ≡ record { state = opened; seen = seen } ∷ [])
        × (seen.opened_at ≡ now)
        × (is_set (wrapped true ctx ncon now probe).closed_info ≡ false)
  unfolding skips store_info
  wrapped-report ctx ncon now probe =
      (gathered opened probe (fresh ctx ncon now).conn, ground arith, ground arith, ground arith)

  -- With a callback that returns and changes nothing when it finds the lock free: the first report
  -- of a session is the one of the opening, made with the time of the wrapping; all the others are
  -- of a closing. There are at most as many of them as calls of `Close`, and there is one exactly
  -- if there is a call of `Close`.
  pub session-reports :
      (f : Callback P C)
      → Watches (some f)
      → (ctx : C) (ncon : NetConn) (now : ℤ) (probe : Probe P) (os : List (Call P)) (w : World P C)
      → session (some f) ctx ncon now probe os ≡ some w
      → (later : List (Report P C)) × (seen : Conn P C) × (w.reports
          ≡ later ++ record { state = opened; seen = seen } ∷ [])
        × (seen.opened_at ≡ now)
        × All IsClosing later
        × (length later ≤ closes os)
        × (ltb 0 (length later) ≡ ltb 0 (closes os))
  session-reports f h ctx ncon now probe os w e =
      let (seen, first, at, unset) = wrapped-report ctx ncon now probe in
      let (later, more, (all, most, least)) =
        all_reported-Split true os (wrapped true ctx ncon now probe)
          (record { state = opened; seen = seen } ∷ []) in
      (
        later,
        seen,
        sym (ap (λ w. w.reports) (session-end (some f) h ctx ncon now probe os w e))
            ∙ ap (λ rs. all_reported true os (wrapped true ctx ncon now probe) (rs ++ [])) first
            ∙ more,
        at,
        all,
        most,
        ground (arith, most, least refl unset),
      )
