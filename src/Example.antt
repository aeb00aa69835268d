-- ===== src/Example.antt =====
-- cmd/get/main.go: the example command, which prints a line for each connection that is closed.
pub mod Panics
use Prim.Native.String.{String}
use sockstats.Common.Int.{ℤ, ◌+ℤ◌, sub_ℕ, pos_part, neg_part}
use sockstats.Common.Text.{Text, codes, format_int, join_texts}
use sockstats.Common.Word.{wrap_64}
use sockstats.Common.{
  ◌+◌, not, Option, none, some, List, ◌++◌, ◌==◌, if◌then◌else◌, Result, ok, err,
}
use sockstats.Conn.Platform.{Platform}
use sockstats.Conn.Report.{Callback, Probe, closed, wrap_conn_with_context}
use sockstats.Conn.Snapshot.{get_warnings}
use sockstats.Conn.State.{GoError, NetConn, Conn, World}
use sockstats.Tcpinfo.Info.{Info}

-- The text of a `time.Duration`, and of a connection as `json.Marshal` gives it.
pub record Prints (P : Platform) (C : Type 0) : Type 0 where
  pub duration : ℤ → Text
  pub json : Conn P C → Text

-- `a - b` of two values of int64.
abbrev pub sub_64 : ℤ → ℤ → ℤ
sub_64 a b = wrap_64 (sub_ℕ (pos_part a + neg_part b) (pos_part b + neg_part a))

module _ {P : Platform} {C : Type 0} where
  -- The text that the callback prints, of the two addresses, the two infos and the warnings.
  unfoldable pub line_of :
      Prints P C → Conn P C → String → String → Info P.SysInfo → Info P.SysInfo → List Text → Text
  line_of p c local remote first last warns =
      codes "Connection "
      ++ (codes local
          ++ (codes " -> "
              ++ (codes remote
                  ++ (codes " took "
                      ++ (p.duration (sub_64 c.closed_at c.opened_at)
                          ++ (codes ", sent:"
                              ++ (format_int c.tx_bytes
                                  ++ (codes "/recv:"
                                      ++ (format_int c.rx_bytes
                                          ++ (codes " bytes, starting RTT "
                                              ++ (p.duration first.rtt
                                                  ++ (codes "("
                                                      ++ (p.duration first.rtt_var
                                                          ++ (codes ") and ending RTT "
                                                            ++ (p.duration last.rtt
                                                            ++ (codes "("
                                                            ++ (p.duration last.rtt_var
                                                            ++ (codes ")\nWarnings:"
                                                            ++ (join_texts warns (codes ", ")
                                                            ++ (codes "\n"
                                                            ++ (p.json c
                                                            ++ codes "\n\n")))))))))))))))))))))

  -- From the test of the state on; `none` is a panic, as of a nil address or info, or a lock that is
  -- held.
  unfoldable pub print_closed : Prints P C → World P C → Option (World P C × Text)
  print_closed p w = elim w.conn.conn.local_addr [
    | none ↦ none
    | some local ↦ elim w.conn.conn.remote_addr [
      | none ↦ none
      | some remote ↦ elim w.conn.opened_info [
        | none ↦ none
        | some first ↦ elim w.conn.closed_info [
          | none ↦ none
          | some last ↦ elim (get_warnings w) [
            | none ↦ none
            | some (w₁, warned) ↦ elim warned [
              | none ↦ none
              | some warns ↦ some (w₁, line_of p w.conn local remote first last warns)
            ]
          ]
        ]
      ]
    ]
  ]

  abbrev pub world_after : Option (World P C × Text) → Option (World P C)
  world_after none = none
  world_after (some (w, line)) = some w

  -- The callback that is given to `WrapConn`.
  unfoldable pub print_stats : Prints P C → Callback P C
  unfolding print_closed
  print_stats p state w = if not (state == closed) then some w else world_after (print_closed p w)

  -- `DialContext` of the transport: an error is returned before anything is wrapped.
  unfoldable pub dial_context :
      Prints P C
      → C
      → Result GoError NetConn
      → ℤ
      → Probe P
      → Option (Option (World P C) × Option GoError)
  dial_context p ctx (err e) now probe = some (none, some e)
  dial_context p ctx (ok conn) now probe =
      elim (wrap_conn_with_context (some (print_stats p)) ctx conn now probe) [
        | none ↦ none
        | some w ↦ some (some w, none)
      ]
