-- ===== src/Conn/Report.antt =====
-- wrap.go: `gatherAndReport` and the wrapping.
use sockstats.Common.Int.{ℤ, pos}
use sockstats.Common.{
  ℕ, Bool, true, false, not, ◌&&◌, ◌||◌, Option, none, some, [], ◌∷◌, ◌==◌, if◌then◌else◌,
}
use sockstats.Conn.Platform.{Platform}
use sockstats.Conn.State.{GoError, NetConn, Conn, World, critical}

abbrev pub opened : ℕ
opened = 0

abbrev pub closed : ℕ
closed = 1

-- What the calls of one gathering give: the error of `SyscallConn`, that of `Control`, and the two
-- results of `GetTCPInfo`, which `Control` runs where it gives no error.
pub record Probe (P : Platform) : Type 0 where
  pub syscall_err : Option GoError
  pub control_err : Option GoError
  pub sys_info : Option P.SysInfo
  pub tcp_err : Option GoError

-- The callback is the caller's code: it may call the methods of the connection, and so use the
-- lock. `none`: it never returns.
abbrev pub Callback : Platform → Type 0 → Type 0
Callback P C = ℕ → World P C → Option (World P C)

abbrev pub is_set {ℓ} : {A : Type ℓ} → Option A → Bool
is_set none = false
is_set (some _) = true

module _ {P : Platform} {C : Type 0} where
  -- From `w.Lock()` on.
  unfoldable pub store_info : ℕ → Probe P → Conn P C → Conn P C
  store_info state probe c = elim probe.control_err [
    | some e ↦ record c { info_err = some e }
    | none ↦ elim probe.tcp_err [
      | some e ↦ record c { info_err = some e }
      | none ↦ elim probe.sys_info [
        | none ↦ c
        | some s ↦
            if state == opened
            then record c { opened_info = some (P.to_info s) }
            else record c { closed_info = some (P.to_info s) }
      ]
    ]
  ]

  -- From the `defer` of the report on: what is done before the deferred call.
  unfoldable pub gather : ℕ → Probe P → World P C → Option (World P C)
  unfolding critical
  gather state probe w =
      if not w.conn.supports_tcp_info || is_set w.conn.info_err
      then some w
      else if not w.conn.conn.is_tcp
      then some w
      else elim probe.syscall_err [ some _ ↦ some w | none ↦ critical (store_info state probe) w ]

  -- The call of the callback, noted down.
  unfoldable pub report : Callback P C → ℕ → World P C → Option (World P C)
  report f state w =
      f state (record w { reports = record { state = state; seen = w.conn } ∷ w.reports })

  -- The returns ahead of the `defer`.
  unfoldable pub skips : ℕ → Conn P C → Bool
  skips state c =
      (not (state == opened) && not (state == closed))
      || (state == opened && is_set c.opened_info)
      || (state == closed && is_set c.closed_info)

  -- `gatherAndReport`
  unfoldable pub gather_and_report :
      Option (Callback P C) → ℕ → Probe P → World P C → Option (World P C)
  unfolding skips report
  gather_and_report report_stats state probe w = elim report_stats [
    | none ↦ some w
    | some f ↦
        if skips state w.conn
        then some w
        else elim (gather state probe w) [ none ↦ none | some w₁ ↦ report f state w₁ ]
  ]

  -- The struct that `WrapConnWithContext` allocates.
  abbrev pub fresh : C → NetConn → ℤ → World P C
  fresh ctx ncon now = record {
    conn = record {
      conn = ncon;
      context = ctx;
      opened_at = now;
      closed_at = pos 0;
      first_rx_at = pos 0;
      first_tx_at = pos 0;
      last_rx_at = pos 0;
      last_tx_at = pos 0;
      tx_bytes = pos 0;
      rx_bytes = pos 0;
      rx_err = none;
      tx_err = none;
      info_err = none;
      reconnects = pos 0;
      opened_info = none;
      closed_info = none;
      supports_tcp_info = P.supported;
    };
    locked = false;
    reports = [];
  }

  -- `WrapConnWithContext`
  unfoldable pub wrap_conn_with_context :
      Option (Callback P C) → C → NetConn → ℤ → Probe P → Option (World P C)
  wrap_conn_with_context report_stats ctx ncon now probe =
      gather_and_report report_stats opened probe (fresh ctx ncon now)
