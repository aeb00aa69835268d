-- ===== src/Httpstat/Network/Events.antt =====
-- cmd/httpstat/main.go: the calls of each connection among the events, and what it means that they
-- made it.
use sockstats.Common.Int.{ℤ}
use sockstats.Common.{
  ℕ, suc, ◌+◌, ◌≤◌, ◌<◌, ◌≡◌, refl, true, ◌&&◌, Option, some, List, [], ◌∷◌, ◌++◌, ◌==◌, ltb,
  if◌then◌else◌, ok, err, get_elem?, length, arith,
}
use sockstats.Conn.Effect.{
  Watches, free, after, after_all, finally, gather_and_report-free, wrapped, new_report,
}
use sockstats.Conn.Methods.{Call, read_of, write_of, set_reconnects_of, close_of}
use sockstats.Conn.Platform.{Platform}
use sockstats.Conn.Report.{Probe, opened, fresh, skips, wrap_conn_with_context}
use sockstats.Conn.Reports.{closes}
use sockstats.Conn.State.{NetConn, Conn, Report, World}
use sockstats.Httpstat.Network.{
  Net, Dialed, net_conn, no_conns, Event, dialed, called, watch, heard,
}

-- How many connections the events dial.
abbrev pub dials : {P : Platform} → List (Event P) → ℕ
dials [] = 0
dials (dialed (ok _) _ _ ∷ es) = suc (dials es)
dials (_ ∷ es) = dials es

-- The calls of the connection at a place, in the order in which they were made.
abbrev pub calls_on : {P : Platform} → ℕ → List (Event P) → List (Call P)
calls_on i [] = []
calls_on i (dialed _ _ _ ∷ es) = calls_on i es
calls_on i (called j o ∷ es) = calls_on i es ++ (if j == i && ltb i (dials es) then o ∷ [] else [])

module _ {P : Platform} where
  -- The connection at a place, after its dialing and its calls.
  abbrev pub Made : List (Event P) → ℕ → World P (Unit {0}) → Type 0
  Made es i w =
      (conn : Dialed) × (now : ℤ) × (probe : Probe P) × (rs : List (Report P (Unit {0}))) × (w
        ≡ free (finally true tt (net_conn conn) now probe (calls_on i es)) rs)

  pub record Tracked (es : List (Event P)) (net : Net P) : Type 0 where
    pub dialed_all : length net.conns ≡ dials es
    pub made : (i : ℕ) (w : World P (Unit {0})) → get_elem? net.conns i ≡ some w → Made es i w
    pub closed_one :
        (i : ℕ) → net.conn_conn ≡ some i → (i < dials es) × (0 < closes (calls_on i es))

  pub calls_on-nil : (i : ℕ) (es : List (Event P)) → dials es ≤ i → calls_on i es ≡ []
  calls_on-nil i [] h = refl
  calls_on-nil i (dialed (ok _) _ _ ∷ es) h = calls_on-nil i es (omega arith)
  calls_on-nil i (dialed (err _) _ _ ∷ es) h = calls_on-nil i es h
  calls_on-nil i (called j o ∷ es) h = ground (arith, calls_on-nil i es h)

  pub after_all-append :
      (os : List (Call P)) (o : Call P) (c : Conn P (Unit {0}))
      → after_all true (os ++ (o ∷ [])) c ≡ after true o (after_all true os c)
  after_all-append [] o c = refl
  after_all-append (p ∷ os) o c = after_all-append os o (after true p c)

  pub closes-append : (os ps : List (Call P)) → closes (os ++ ps) ≡ closes os + closes ps
  closes-append [] ps = omega arith
  closes-append (read_of _ _ _ ∷ os) ps = closes-append os ps
  closes-append (write_of _ _ _ ∷ os) ps = closes-append os ps
  closes-append (set_reconnects_of _ ∷ os) ps = closes-append os ps
  closes-append (close_of _ _ _ ∷ os) ps = omega (arith, closes-append os ps)

  pub no_conns-Tracked : Tracked [] no_conns
  no_conns-Tracked = record {
    dialed_all = refl;
    made = λ i w e. ground (arith, e);
    closed_one = λ i e. ground (arith, e);
  }

  pub watch-Watches : Watches {P = P} (some watch)
  watch-Watches state w h = refl

  pub wrap-free :
      (conn : NetConn) (now : ℤ) (probe : Probe P)
      → wrap_conn_with_context (some watch) tt conn now probe
        ≡ some (
            free
              (wrapped true tt conn now probe)
              (new_report true opened probe (fresh tt conn now).conn ++ []))
  unfolding wrap_conn_with_context
  wrap-free conn now probe =
      gather_and_report-free (some watch) watch-Watches opened probe (fresh tt conn now).conn []

  -- A report of an opening leaves the pointer alone.
  pub heard-opened :
      (i : ℕ) (conn : NetConn) (now : ℤ) (probe : Probe P) (g : Option ℕ)
      → heard i (new_report true opened probe (fresh tt conn now).conn ++ []) g ≡ g
  unfolding skips
  heard-opened i conn now probe g = ground arith
