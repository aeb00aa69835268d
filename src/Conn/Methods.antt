-- ===== src/Conn/Methods.antt =====
-- wrap.go: the methods of `Conn` that change it, and sequences of their calls.
use sockstats.Common.Int.{ℤ}
use sockstats.Common.{Option, none, some, List, [], ◌∷◌}
use sockstats.Conn.Platform.{Platform}
use sockstats.Conn.Report.{Callback, Probe, closed, gather_and_report, wrap_conn_with_context}
use sockstats.Conn.State.{GoError, NetConn, World, critical, track_read, track_write}

module _ {P : Platform} {C : Type 0} (report_stats : Option (Callback P C)) where
  -- A result with the value that the method returns.
  abbrev returns : {A : Type 0} → A → Option (World P C) → Option (World P C × A)
  returns a none = none
  returns a (some w) = some (w, a)

  -- `(*Conn).Read`: the underlying `Read` has given `n` and `err`.
  unfoldable pub read :
      ℤ → Option GoError → ℤ → World P C → Option (World P C × (ℤ × Option GoError))
  unfolding critical
  read n err ts w = returns (n, err) (critical (track_read n err ts) w)

  -- `(*Conn).Write`
  unfoldable pub write :
      ℤ → Option GoError → ℤ → World P C → Option (World P C × (ℤ × Option GoError))
  unfolding critical
  write n err ts w = returns (n, err) (critical (track_write n err ts) w)

  -- `(*Conn).SetReconnects`
  unfoldable pub set_reconnects : ℤ → World P C → Option (World P C)
  unfolding critical
  set_reconnects r w = critical (λ c. record c { reconnects = r }) w

  -- `(*Conn).Close`: `err` is what the underlying `Close` gives in the end.
  unfoldable pub close :
      ℤ → Probe P → Option GoError → World P C → Option (World P C × Option GoError)
  unfolding critical
  close ts probe err w = elim (critical (λ c. record c { closed_at = ts }) w) [
    | none ↦ none
    | some w₁ ↦ returns err (gather_and_report report_stats closed probe w₁)
  ]

-- A call of a method, with what the underlying connection, the system and the clock give to it.
pub data Call (P : Platform) : Type 0 where
  read_of : ℤ → Option GoError → ℤ → Call P
  write_of : ℤ → Option GoError → ℤ → Call P
  set_reconnects_of : ℤ → Call P
  close_of : ℤ → Probe P → Option GoError → Call P

module _ {P : Platform} {C : Type 0} (report_stats : Option (Callback P C)) where
  abbrev pub world_of : {A : Type 0} → Option (World P C × A) → Option (World P C)
  world_of none = none
  world_of (some (w, _)) = some w

  abbrev pub call : Call P → World P C → Option (World P C)
  call (read_of n err ts) w = world_of (read report_stats n err ts w)
  call (write_of n err ts) w = world_of (write report_stats n err ts w)
  call (set_reconnects_of r) w = set_reconnects report_stats r w
  call (close_of ts probe err) w = world_of (close report_stats ts probe err w)

  -- The calls, one after the other.
  unfoldable pub calls : List (Call P) → World P C → Option (World P C)
  calls [] w = some w
  calls (o ∷ os) w = elim (call o w) [ none ↦ none | some w₁ ↦ calls os w₁ ]

  -- A wrapping, and calls on the connection that it gives.
  unfoldable pub session : C → NetConn → ℤ → Probe P → List (Call P) → Option (World P C)
  session ctx ncon now probe os = elim (wrap_conn_with_context report_stats ctx ncon now probe) [
    | none ↦ none
    | some w ↦ calls os w
  ]
