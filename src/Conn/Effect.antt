-- ===== src/Conn/Effect.antt =====
-- What the methods of wrap.go do to a connection whose lock is free, the callback left aside.
use sockstats.Common.Int.{ℤ}
use sockstats.Common.{
  ℕ, ◌≡◌, refl, Bool, false, not, ◌&&◌, ◌||◌, Option, none, some, List, [], ◌∷◌, ◌++◌,
  if◌then◌else◌, arith, Bool-cases, inl, inr,
}
use sockstats.Conn.Methods.{
  Call, read_of, write_of, set_reconnects_of, close_of, read, write, set_reconnects, close, call,
  calls, session,
}
use sockstats.Conn.Platform.{Platform}
use sockstats.Conn.Report.{
  Callback, Probe, opened, closed, is_set, store_info, gather, report, skips, gather_and_report,
  wrap_conn_with_context, fresh,
}
use sockstats.Conn.State.{
  NetConn, Conn, Report, World, lock, unlock, critical, track_read, track_write,
}

-- A callback that finds the lock free returns, and leaves the connection as it is. Of a callback
-- that finds it held nothing is said.
abbrev pub Watches : {P : Platform} {C : Type 0} → Option (Callback P C) → Type 0
Watches none = Unit
Watches (some f) = (state : ℕ) (w : World _ _) → w.locked ≡ false → f state w ≡ some w

module _ {P : Platform} {C : Type 0} where
  abbrev pub free : Conn P C → List (Report P C) → World P C
  free c rs = record { conn = c; locked = false; reports = rs }

  -- The connection after a gathering.
  abbrev pub gathered : ℕ → Probe P → Conn P C → Conn P C
  gathered state probe c =
      if not c.supports_tcp_info || is_set c.info_err
      then c
      else if not c.conn.is_tcp
      then c
      else elim probe.syscall_err [ some _ ↦ c | none ↦ store_info state probe c ]

  pub gather-free :
      (state : ℕ) (probe : Probe P) (c : Conn P C) (rs : List (Report P C))
      → gather state probe (free c rs) ≡ some (free (gathered state probe c) rs)
  unfolding gather critical lock unlock
  gather-free state probe c rs = ground arith

  abbrev pub reports_at : Bool → ℕ → Conn P C → Bool
  reports_at b state c = b && not (skips state c)

  abbrev pub after_report : Bool → ℕ → Probe P → Conn P C → Conn P C
  after_report b state probe c = if reports_at b state c then gathered state probe c else c

  abbrev pub new_report : Bool → ℕ → Probe P → Conn P C → List (Report P C)
  new_report b state probe c =
      if reports_at b state c
      then record { state = state; seen = gathered state probe c } ∷ []
      else []

  pub gather_and_report-free :
      (r : Option (Callback P C))
      → Watches r
      → (state : ℕ) (probe : Probe P) (c : Conn P C) (rs : List (Report P C))
      → gather_and_report r state probe (free c rs)
        ≡ some (
            free
              (after_report (is_set r) state probe c)
              (new_report (is_set r) state probe c ++ rs))
  unfolding gather_and_report report
  gather_and_report-free none h state probe c rs = refl
  gather_and_report-free (some f) h state probe c rs = elim (Bool-cases (skips state c)) [
    | inl e ↦ rw (e)
    | inr e ↦ rw (e, gather-free state probe c rs, h)
  ]

  -- A call, where `b` says whether there is a callback.
  abbrev pub after : Bool → Call P → Conn P C → Conn P C
  after b (read_of n err ts) c = track_read n err ts c
  after b (write_of n err ts) c = track_write n err ts c
  after b (set_reconnects_of r) c = record c { reconnects = r }
  after b (close_of ts probe err) c = after_report b closed probe (record c { closed_at = ts })

  abbrev pub reported : Bool → Call P → Conn P C → List (Report P C)
  reported b (close_of ts probe err) c = new_report b closed probe (record c { closed_at = ts })
  reported b _ c = []

  abbrev pub after_all : Bool → List (Call P) → Conn P C → Conn P C
  after_all b [] c = c
  after_all b (o ∷ os) c = after_all b os (after b o c)

  -- The reports of the calls, the latest first, on top of those before.
  abbrev pub all_reported : Bool → List (Call P) → Conn P C → List (Report P C) → List (Report P C)
  all_reported b [] c rs = rs
  all_reported b (o ∷ os) c rs = all_reported b os (after b o c) (reported b o c ++ rs)

  pub call-free :
      (r : Option (Callback P C))
      → Watches r
      → (o : Call P) (c : Conn P C) (rs : List (Report P C))
      → call r o (free c rs) ≡ some (free (after (is_set r) o c) (reported (is_set r) o c ++ rs))
  unfolding read write set_reconnects close critical lock unlock
  call-free r h (read_of n err ts) c rs = refl
  call-free r h (write_of n err ts) c rs = refl
  call-free r h (set_reconnects_of k) c rs = refl
  call-free r h (close_of ts probe err) c rs =
      rw (gather_and_report-free r h closed probe (record c { closed_at = ts }) rs)

  pub calls-free :
      (r : Option (Callback P C))
      → Watches r
      → (os : List (Call P)) (c : Conn P C) (rs : List (Report P C))
      → calls r os (free c rs)
        ≡ some (free (after_all (is_set r) os c) (all_reported (is_set r) os c rs))
  unfolding calls
  calls-free r h [] c rs = refl
  calls-free r h (o ∷ os) c rs = rw (call-free r h o c rs, calls, calls-free r h os)

  -- The connection that the wrapping gives, and the whole session.
  abbrev pub wrapped : Bool → C → NetConn → ℤ → Probe P → Conn P C
  wrapped b ctx ncon now probe = after_report b opened probe (fresh ctx ncon now).conn

  abbrev pub finally : Bool → C → NetConn → ℤ → Probe P → List (Call P) → Conn P C
  finally b ctx ncon now probe os = after_all b os (wrapped b ctx ncon now probe)

  abbrev pub all_reports : Bool → C → NetConn → ℤ → Probe P → List (Call P) → List (Report P C)
  all_reports b ctx ncon now probe os =
      all_reported b os (wrapped b ctx ncon now probe)
        (new_report b opened probe (fresh ctx ncon now).conn ++ [])

  pub session-free :
      (r : Option (Callback P C))
      → Watches r
      → (ctx : C) (ncon : NetConn) (now : ℤ) (probe : Probe P) (os : List (Call P))
      → session r ctx ncon now probe os
        ≡ some (
            free
              (finally (is_set r) ctx ncon now probe os)
              (all_reports (is_set r) ctx ncon now probe os))
  unfolding session wrap_conn_with_context
  session-free r h ctx ncon now probe os = rw (
    gather_and_report-free r h opened probe (fresh ctx ncon now).conn [],
    session,
    wrap_conn_with_context,
    calls-free r h os,
  )
