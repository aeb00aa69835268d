-- ===== src/Httpstat/Network.antt =====
-- cmd/httpstat/main.go: `dialContext`, the connections that it wraps, `connConn`, the global pointer
-- to the connection that was closed last, and the report on it that `visit` prints. What the
-- transport does with a connection is a sequence of calls.
pub mod Events
pub mod Tracked
pub mod Printed
use Prim.Native.String.{String}
use sockstats.Common.Int.{ℤ}
use sockstats.Common.Text.{Text, codes, format_int, join_texts}
use sockstats.Common.{
  ℕ, Bool, false, Option, none, some, List, [], ◌∷◌, ◌++◌, ◌==◌, if◌then◌else◌, Result, ok, err,
  get_elem?, length, put,
}
use sockstats.Conn.Methods.{Call, call}
use sockstats.Conn.Platform.{Platform}
use sockstats.Conn.Report.{Callback, Probe, closed, wrap_conn_with_context}
use sockstats.Conn.Snapshot.{get_warnings, to_map}
use sockstats.Conn.State.{GoError, NetConn, Report, World}
use sockstats.Tcpinfo.AnyMap.{Fields}
use sockstats.Tcpinfo.Info.{Info}

-- The wrapped connections in the order of their dialing, all in the background context, and
-- `connConn`: a pointer is the place of its connection.
pub record Net (P : Platform) : Type 0 where
  pub conns : List (World P (Unit {0}))
  pub conn_conn : Option ℕ

abbrev pub no_conns : {P : Platform} → Net P
no_conns = record { conns = []; conn_conn = none }

-- A connection that `DialContext` of package net gives: one with both addresses.
pub record Dialed : Type 0 where
  pub is_tcp : Bool
  pub local_addr : String
  pub remote_addr : String

abbrev pub net_conn : Dialed → NetConn
net_conn d = record {
  is_tcp = d.is_tcp;
  local_addr = some d.local_addr;
  remote_addr = some d.remote_addr;
}

-- `DialContext` of package net has given a connection or an error, or there is a call of a method
-- of a connection that was dialed before.
pub data Event (P : Platform) : Type 0 where
  dialed : Result GoError Dialed → ℤ → Probe P → Event P
  called : ℕ → Call P → Event P

-- A nil `net.Conn`, which is what `DialContext` gives beside an error: it is no `*net.TCPConn`.
abbrev pub nil_conn : NetConn
nil_conn = record { is_tcp = false; local_addr = none; remote_addr = none }

abbrev pub set_conniver : ℕ → Option ℕ → Option ℕ
set_conniver i conn_conn = some i

module _ {P : Platform} where
  -- What the callback does to the connection: nothing. What it does to `connConn` is `heard`.
  abbrev pub watch : Callback P (Unit {0})
  watch state w = some w

  -- The calls of the callback for the connection at place `i`, of which the latest stands first.
  abbrev pub heard : ℕ → List (Report P (Unit {0})) → Option ℕ → Option ℕ
  heard i [] conn_conn = conn_conn
  heard i (r ∷ rs) conn_conn =
      let before = heard i rs conn_conn in
      if r.state == closed then set_conniver i before else before

  -- `dialContext`: the connection is wrapped beside an error too, and both are returned; the
  -- transport then leaves the connection.
  unfoldable pub dial_context :
      Result GoError Dialed → ℤ → Probe P → Net P → Option (Net P × Option GoError)
  dial_context (ok conn) now probe net =
      elim (wrap_conn_with_context (some watch) tt (net_conn conn) now probe) [
        | none ↦ none
        | some w ↦ some (
          record net {
            conns = net.conns ++ (w ∷ []);
            conn_conn = heard (length net.conns) w.reports net.conn_conn;
          },
          none,
        )
      ]
  dial_context (err e) now probe net =
      elim (wrap_conn_with_context (some watch) tt nil_conn now probe) [
        | none ↦ none
        | some w ↦
            some
              (record net { conn_conn = heard (length net.conns) w.reports net.conn_conn }, some e)
      ]

  -- One event. The reports of a connection are noted from its latest call on.
  unfoldable pub step : Event P → Net P → Option (Net P)
  unfolding dial_context
  step (dialed result now probe) net = elim (dial_context result now probe net) [
    | none ↦ none
    | some (net₁, e) ↦ some net₁
  ]
  step (called i o) net = elim (get_elem? net.conns i) [
    | none ↦ some net
    | some w ↦ elim (call (some watch) o (record w { reports = [] })) [
      | none ↦ none
      | some w₁ ↦
          some (record { conns = put net.conns i w₁; conn_conn = heard i w₁.reports net.conn_conn })
    ]
  ]

  -- The events, of which the latest stands first.
  unfoldable pub run : List (Event P) → Option (Net P)
  unfolding step
  run [] = some no_conns
  run (e ∷ es) = elim (run es) [ none ↦ none | some net ↦ step e net ]

  -- `getConniver`
  abbrev pub get_conniver : Net P → Option ℕ
  get_conniver net = net.conn_conn

-- What `visit` reads of the connection to print it.
pub record Shown : Type 0 where
  pub rtt : ℤ
  pub tx_bytes : ℤ
  pub rx_bytes : ℤ
  pub warns : List Text
  pub diagnostics : Fields

module _ {P : Platform} where
  -- From the test `info != nil` on. `none`: a panic, or a lock that is held.
  unfoldable pub show_conn : World P (Unit {0}) → Option (Option Shown)
  show_conn w = elim w.conn.closed_info [
    | none ↦ some none
    | some info ↦ elim (get_warnings w) [
      | none ↦ none
      | some (w₁, warned) ↦ elim warned [
        | none ↦ none
        | some warns ↦ elim (to_map w₁) [
          | none ↦ none
          | some (w₂, made) ↦ elim made [
            | none ↦ none
            | some m ↦ some (
                some record {
                  rtt = info.rtt;
                  tx_bytes = w.conn.tx_bytes;
                  rx_bytes = w.conn.rx_bytes;
                  warns = warns;
                  diagnostics = m;
                })
          ]
        ]
      ]
    ]
  ]

  -- The block that begins with `getConniver`.
  unfoldable pub diagnose : Net P → Option (Option Shown)
  unfolding show_conn
  diagnose net = elim (get_conniver net) [
    | none ↦ some none
    | some i ↦ elim (get_elem? net.conns i) [ none ↦ some none | some w ↦ show_conn w ]
  ]

-- The text of a `time.Duration`, and the print of a map as JSON.
pub record Printer : Type 0 where
  pub duration : ℤ → Text
  pub json : Fields → Text

abbrev pub warning_prints : List Text → List Text
warning_prints [] = []
warning_prints (w ∷ ws) =
    (codes "Warnings:\t" ++ (join_texts (w ∷ ws) (codes ", ") ++ codes "\n")) ∷ []

-- What each call of `printf` writes where colours are off.
unfoldable pub shown_prints : Printer → Shown → List Text
shown_prints p s =
    (codes "RTT:\t\t" ++ (p.duration s.rtt ++ codes "\n"))
    ∷ (codes "Sent:\t\t" ++ (format_int s.tx_bytes ++ codes " bytes\n"))
    ∷ (codes "Received:\t" ++ (format_int s.rx_bytes ++ codes " bytes\n"))
    ∷ (warning_prints s.warns
        ++ ((codes "Diagnostics:\n============\n\n" ++ (p.json s.diagnostics ++ codes "\n")) ∷ []))
