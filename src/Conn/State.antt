-- ===== src/Conn/State.antt =====
-- wrap.go: the struct `Conn` with its lock, and the critical sections of its methods.
use Prim.Native.String.{String}
use sockstats.Common.Int.{ℤ, pos, ltb_ℤ, is_zero, ◌+ℤ◌}
use sockstats.Common.Word.{wrap_64}
use sockstats.Common.{ℕ, Bool, true, false, not, ◌&&◌, Option, none, some, List, if◌then◌else◌}
use sockstats.Conn.Platform.{Platform}
use sockstats.Tcpinfo.Info.{Info}

-- An error value, as far as the wrapper looks at it: `Error()`, whether it is a `net.Error`, and
-- then `Timeout()`.
pub record GoError : Type 0 where
  pub message : String
  pub is_net_error : Bool
  pub timeout : Bool

-- The underlying `net.Conn`: whether it is a `*net.TCPConn`, and the texts of its addresses, `none`
-- for one that is nil.
pub record NetConn : Type 0 where
  pub is_tcp : Bool
  pub local_addr : Option String
  pub remote_addr : Option String

-- The fields of `Conn` but `reportStats`, which nothing assigns after the wrapping, and the mutex.
-- `C` is the type of contexts.
pub record Conn (P : Platform) (C : Type 0) : Type 0 where
  pub conn : NetConn
  pub context : C
  pub opened_at : ℤ
  pub closed_at : ℤ
  pub first_rx_at : ℤ
  pub first_tx_at : ℤ
  pub last_rx_at : ℤ
  pub last_tx_at : ℤ
  pub tx_bytes : ℤ
  pub rx_bytes : ℤ
  pub rx_err : Option GoError
  pub tx_err : Option GoError
  pub info_err : Option GoError
  pub reconnects : ℤ
  pub opened_info : Option (Info P.SysInfo)
  pub closed_info : Option (Info P.SysInfo)
  pub supports_tcp_info : Bool

-- One call of the callback: the state it is called with, and the connection as it finds it.
pub record Report (P : Platform) (C : Type 0) : Type 0 where
  pub state : ℕ
  pub seen : Conn P C

-- The connection, its mutex, and the calls of the callback so far, the latest first; the code keeps
-- no such list.
pub record World (P : Platform) (C : Type 0) : Type 0 where
  pub conn : Conn P C
  pub locked : Bool
  pub reports : List (Report P C)

module _ {P : Platform} {C : Type 0} where
  -- `w.Lock()`: of a mutex that is held it never returns here, as one goroutine runs.
  unfoldable pub lock : World P C → Option (World P C)
  lock w = if w.locked then none else some (record w { locked = true })

  unfoldable pub unlock : World P C → World P C
  unlock w = record w { locked = false }

  -- `w.Lock(); defer w.Unlock()` around statements on the fields.
  unfoldable pub critical : (Conn P C → Conn P C) → World P C → Option (World P C)
  unfolding lock unlock
  critical f w = elim (lock w) [
    | none ↦ none
    | some w₁ ↦ some (unlock (record w₁ { conn = f w₁.conn }))
  ]

  -- The statements of `Read` under the lock, at the result of the underlying `Read` and the time.
  unfoldable pub track_read : ℤ → Option GoError → ℤ → Conn P C → Conn P C
  track_read n err ts c =
      let stamped : Conn P C = elim err [
        | some _ ↦ c
        | none ↦
            if not (ltb_ℤ (pos 0) n)
            then c
            else if is_zero c.first_rx_at
            then record c { first_rx_at = ts; last_rx_at = ts }
            else record c { last_rx_at = ts }
      ] in
      let counted = record stamped { rx_bytes = wrap_64 (stamped.rx_bytes +ℤ n) } in
      elim err [
        | none ↦ counted
        | some e ↦
            if e.is_net_error && not e.timeout then record counted { rx_err = some e } else counted
      ]

  -- The statements of `Write` under the lock.
  unfoldable pub track_write : ℤ → Option GoError → ℤ → Conn P C → Conn P C
  track_write n err ts c =
      let stamped : Conn P C = elim err [
        | some _ ↦ c
        | none ↦
            if not (ltb_ℤ (pos 0) n)
            then c
            else if is_zero c.first_tx_at
            then record c { first_tx_at = ts; last_tx_at = ts }
            else record c { last_tx_at = ts }
      ] in
      let counted = record stamped { tx_bytes = wrap_64 (stamped.tx_bytes +ℤ n) } in
      let stored = record counted { tx_err = err } in
      elim err [
        | none ↦ stored
        | some e ↦
            if e.is_net_error && not e.timeout then record stored { tx_err = some e } else stored
      ]
