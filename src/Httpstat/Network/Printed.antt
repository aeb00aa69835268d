-- ===== src/Httpstat/Network/Printed.antt =====
-- cmd/httpstat/main.go: what the report on the closed connection shows.
use Prim.Native.String.{String}
use mathlib.Core.Path.{subst}
use sockstats.Common.Int.{ℤ}
use sockstats.Common.Text.{Text}
use sockstats.Common.Word.{wrap_64}
use sockstats.Common.{
  ℕ, ◌<◌, ◌≡◌, refl, sym, ap, ◌∙◌, ◌⊎◌, inl, inr, true, Option, none, some, List, get_elem?,
  get_elem?-none-le, Option-cases, arith,
}
use sockstats.Conn.Effect.{free, finally, session-free, all_reports}
use sockstats.Conn.Methods.{Call}
use sockstats.Conn.Platform.{Platform}
use sockstats.Conn.Report.{Probe}
use sockstats.Conn.Reports.{closes}
use sockstats.Conn.Safe.{HasSys, session-HasSys, warnings-some, fields-some, finally-conn}
use sockstats.Conn.Snapshot.{
  warnings, fields, plain_fields, optional_fields, error_entry, info_entry, get_warnings, to_map,
}
use sockstats.Conn.State.{Conn, Report, World, lock, unlock}
use sockstats.Conn.Sums.{total_read, total_written, session-bytes}
use sockstats.Httpstat.Network.Events.{Tracked, calls_on, watch-Watches}
use sockstats.Httpstat.Network.Tracked.{run-Tracked}
use sockstats.Httpstat.Network.{
  Net, Dialed, net_conn, Event, watch, run, Shown, show_conn, diagnose,
}
use sockstats.Tcpinfo.AnyMap.{Fields, lookup, int, assign_valid}
use sockstats.Tcpinfo.AnyMap.Lookup.{lookup-assign_valid_ne}
use sockstats.Tcpinfo.Info.{Info}

module _ {P : Platform} where
  -- What a report, or its absence, tells of a connection with these calls.
  abbrev pub Reports : List (Call P) → Conn P (Unit {0}) → Option Shown → Type 0
  Reports os c none = c.closed_info ≡ none
  Reports os c (some s) =
      (info : Info P.SysInfo) × (c.closed_info ≡ some info)
      × (s.rtt ≡ info.rtt)
      × (s.tx_bytes ≡ wrap_64 (total_written os))
      × (s.rx_bytes ≡ wrap_64 (total_read os))
      × (lookup "txBytes" s.diagnostics ≡ some (int s.tx_bytes))
      × (lookup "rxBytes" s.diagnostics ≡ some (int s.rx_bytes))

  -- The guarded assignments leave the counters in the map alone.
  counted :
      (c : Conn P (Unit {0})) (local remote : String) (ws : List Text)
      → let m = assign_valid (optional_fields c) (plain_fields c local remote ws) in
        (lookup "txBytes" m ≡ some (int c.tx_bytes)) × (lookup "rxBytes" m ≡ some (int c.rx_bytes))
  unfolding optional_fields plain_fields lookup error_entry info_entry
  counted c local remote ws = (
    lookup-assign_valid_ne "txBytes" (optional_fields c) (plain_fields c local remote ws)
        (refl, (refl, (refl, (refl, (refl, (refl, tt)))))),
    lookup-assign_valid_ne "rxBytes" (optional_fields c) (plain_fields c local remote ws)
        (refl, (refl, (refl, (refl, (refl, (refl, tt)))))),
  )

  abbrev of_conn : Conn P (Unit {0}) → Info P.SysInfo → List Text → Fields → Shown
  of_conn c info ws m = record {
    rtt = info.rtt;
    tx_bytes = c.tx_bytes;
    rx_bytes = c.rx_bytes;
    warns = ws;
    diagnostics = m;
  }

  show_conn-some :
      (c : Conn P (Unit {0})) (rs : List (Report P (Unit {0}))) (info : Info P.SysInfo)
      (ws : List Text) (m : Fields)
      → c.closed_info ≡ some info
      → warnings c ≡ some ws
      → fields c ≡ some m
      → show_conn (free c rs) ≡ some (some (of_conn c info ws m))
  unfolding show_conn get_warnings to_map lock unlock
  show_conn-some c rs info ws m set warned made = ground arith

  show_conn-free :
      (os : List (Call P)) (c : Conn P (Unit {0})) (rs : List (Report P (Unit {0})))
      → HasSys c
      → (conn : Dialed) → c.conn ≡ net_conn conn
      → (c.rx_bytes ≡ wrap_64 (total_read os)) × (c.tx_bytes ≡ wrap_64 (total_written os))
      → (o : Option Shown) × (show_conn (free c rs) ≡ some o) × Reports os c o
  unfolding show_conn
  show_conn-free os c rs h conn same (rx, tx) = elim (Option-cases c.closed_info) [
    | inl unset ↦ (none, rw (unset, show_conn), unset)
    | inr (info, set) ↦
        let (ws, warned) = warnings-some c h in
        let local = conn.local_addr in
        let remote = conn.remote_addr in
        let (ws', made) =
          fields-some c local remote h (ap (λ n. n.local_addr) same)
            (ap (λ n. n.remote_addr) same) in
        (
          some (
              of_conn c info ws
                (assign_valid (optional_fields c) (plain_fields c local remote ws'))),
          show_conn-some c rs info ws _ set warned made,
          (let (tx_told, rx_told) = counted c local remote ws' in
              (info, set, refl, tx, rx, tx_told, rx_told)),
        )
  ]

  module _ (conn : Dialed) (now : ℤ) (probe : Probe P) (os : List (Call P)) where
    abbrev end : Conn P (Unit {0})
    end = finally true tt (net_conn conn) now probe os

    whole : List (Report P (Unit {0}))
    whole = all_reports true tt (net_conn conn) now probe os

    end-HasSys : HasSys end
    end-HasSys =
        session-HasSys (some watch) watch-Watches tt (net_conn conn) now probe os (free end _)
          (session-free (some watch) watch-Watches tt (net_conn conn) now probe os)

    end-bytes :
        (end.rx_bytes ≡ wrap_64 (total_read os)) × (end.tx_bytes ≡ wrap_64 (total_written os))
    end-bytes =
        session-bytes (some watch) watch-Watches tt (net_conn conn) now probe os (free end _)
          (session-free (some watch) watch-Watches tt (net_conn conn) now probe os)

  -- What `visit` prints of the connections that the events leave.
  abbrev pub Tells : List (Event P) → Net P → Option Shown → Type 0
  Tells es net o =
      ((net.conn_conn ≡ none) × (o ≡ none))
      ⊎ ((i : ℕ) × (w : World P (Unit {0})) × (net.conn_conn ≡ some i)
          × (get_elem? net.conns i ≡ some w)
          × (0 < closes (calls_on i es))
          × Reports (calls_on i es) w.conn o)

  shown-Tells :
      (es : List (Event P)) (net : Net P)
      → Tracked es net
      → (o : Option Shown) × (diagnose net ≡ some o) × Tells es net o
  unfolding diagnose
  shown-Tells es net t = elim (Option-cases net.conn_conn) [
    | inl unset ↦ (none, rw (unset, diagnose), inl (unset, refl))
    | inr (i, set) ↦ elim (Option-cases (get_elem? net.conns i)) [
      | inl gone ↦
          absurd (
            omega (arith, get_elem?-none-le net.conns i gone, (t.closed_one i set).0, t.dialed_all))
      | inr (w, at) ↦
          let (conn, now, probe, rs, same) = t.made i w at in
          let os = calls_on i es in
          let (o, shown, tells) =
            show_conn-free os (end conn now probe os) rs (end-HasSys conn now probe os) conn
              (finally-conn true tt (net_conn conn) now probe os) (end-bytes conn now probe os) in
          (
            o,
            rw (set, diagnose, at) (ap show_conn same ∙ shown),
            inr (
              i,
              w,
              set,
              at,
              (t.closed_one i set).1,
              subst (λ c. Reports os c o) (ap (λ w. w.conn) (sym same)) tells,
            ),
          )
    ]
  ]

  -- However many connections httpstat dials, whatever the transport does with them, and in any
  -- order: all of it takes place, and the report that a visit prints never panics. There is none if
  -- no closing was reported. Otherwise it is about a connection that was closed; there is none if
  -- that connection has no `ClosedInfo`, and else it shows the RTT of it, as Sent the sum of the
  -- counts of all the writes of this very connection and as Received that of all its reads, failing
  -- ones and those behind the closing included, each kept to 64 bits; the counters in its map are
  -- the same.
  pub diagnose-Tells :
      (es : List (Event P))
      → (net : Net P) × (run es ≡ some net)
        × ((o : Option Shown) × (diagnose net ≡ some o) × Tells es net o)
  diagnose-Tells es = let (net, ran, t) = run-Tracked es in (net, ran, shown-Tells es net t)
