-- ===== src/Conn/Latest.antt =====
-- wrap.go: the times and the errors that a session leaves in the connection.
use sockstats.Common.Int.{ℤ, pos, ltb_ℤ}
use sockstats.Common.{
  last_or, first_or, picks, or_old, fold_items-or_old, ◌≡◌, refl, ◌∙◌, Bool, not, ◌&&◌, Option,
  none, some, List, if◌then◌else◌, arith, All,
}
use sockstats.Conn.Effect.{Watches, after, wrapped}
use sockstats.Conn.History.{or_first, NonZero, session-field, fold_items-or_first}
use sockstats.Conn.Methods.{Call, read_of, write_of, set_reconnects_of, close_of, session}
use sockstats.Conn.Platform.{Platform}
use sockstats.Conn.Report.{Callback, Probe, is_set, store_info}
use sockstats.Conn.State.{GoError, NetConn, Conn, World, track_read, track_write}

module _ {P : Platform} where
  -- The time of a read that gave data and no error; the same of a write.
  abbrev pub read_time : Call P → Option ℤ
  read_time (read_of n none ts) = if ltb_ℤ (pos 0) n then some ts else none
  read_time _ = none

  abbrev pub write_time : Call P → Option ℤ
  write_time (write_of n none ts) = if ltb_ℤ (pos 0) n then some ts else none
  write_time _ = none

  -- The error of a read, where it is a `net.Error` that is no timeout.
  abbrev pub lasting_read_error : Call P → Option (Option GoError)
  lasting_read_error (read_of n (some e) ts) =
      if e.is_net_error && not e.timeout then some (some e) else none
  lasting_read_error _ = none

  -- What a write gives as its error, nil included.
  abbrev pub write_outcome : Call P → Option (Option GoError)
  write_outcome (write_of n err ts) = some err
  write_outcome _ = none

module _ {P : Platform} {C : Type 0} (b : Bool) where
  after-first_rx_at :
      (o : Call P) (c : Conn P C) → (after b o c).first_rx_at ≡ or_first (read_time o) c.first_rx_at
  unfolding track_read track_write store_info
  after-first_rx_at (read_of n err ts) c = ground arith
  after-first_rx_at (write_of n err ts) c = ground arith
  after-first_rx_at (set_reconnects_of r) c = refl
  after-first_rx_at (close_of ts probe err) c = ground arith

  after-last_rx_at :
      (o : Call P) (c : Conn P C) → (after b o c).last_rx_at ≡ or_old (read_time o) c.last_rx_at
  unfolding track_read track_write store_info
  after-last_rx_at (read_of n err ts) c = ground arith
  after-last_rx_at (write_of n err ts) c = ground arith
  after-last_rx_at (set_reconnects_of r) c = refl
  after-last_rx_at (close_of ts probe err) c = ground arith

  after-first_tx_at :
      (o : Call P) (c : Conn P C)
      → (after b o c).first_tx_at ≡ or_first (write_time o) c.first_tx_at
  unfolding track_read track_write store_info
  after-first_tx_at (read_of n err ts) c = ground arith
  after-first_tx_at (write_of n err ts) c = ground arith
  after-first_tx_at (set_reconnects_of r) c = refl
  after-first_tx_at (close_of ts probe err) c = ground arith

  after-last_tx_at :
      (o : Call P) (c : Conn P C) → (after b o c).last_tx_at ≡ or_old (write_time o) c.last_tx_at
  unfolding track_read track_write store_info
  after-last_tx_at (read_of n err ts) c = ground arith
  after-last_tx_at (write_of n err ts) c = ground arith
  after-last_tx_at (set_reconnects_of r) c = refl
  after-last_tx_at (close_of ts probe err) c = ground arith

  after-rx_err :
      (o : Call P) (c : Conn P C) → (after b o c).rx_err ≡ or_old (lasting_read_error o) c.rx_err
  unfolding track_read track_write store_info
  after-rx_err (read_of n err ts) c = ground arith
  after-rx_err (write_of n err ts) c = ground arith
  after-rx_err (set_reconnects_of r) c = refl
  after-rx_err (close_of ts probe err) c = ground arith

  after-tx_err :
      (o : Call P) (c : Conn P C) → (after b o c).tx_err ≡ or_old (write_outcome o) c.tx_err
  unfolding track_read track_write store_info
  after-tx_err (read_of n err ts) c = ground arith
  after-tx_err (write_of n err ts) c = ground arith
  after-tx_err (set_reconnects_of r) c = refl
  after-tx_err (close_of ts probe err) c = ground arith

module _ {P : Platform} {C : Type 0} where
  wrapped-times :
      (b : Bool) (ctx : C) (ncon : NetConn) (now : ℤ) (probe : Probe P)
      → (let c = wrapped b ctx ncon now probe in
          (c.first_rx_at ≡ pos 0)
          × (c.last_rx_at ≡ pos 0)
          × (c.first_tx_at ≡ pos 0)
          × (c.last_tx_at ≡ pos 0)
          × (c.rx_err ≡ none)
          × (c.tx_err ≡ none))
  unfolding store_info
  wrapped-times b ctx ncon now probe = ground arith

  -- With no callback, or one that returns and changes nothing when it finds the lock free: at the
  -- end of a session in which no read or write that gave data without an error was made at the time
  -- 0, `FirstRxAt` and `LastRxAt` are the times of the first and the last read that gave data
  -- without an error, 0 if there is none; `FirstTxAt` and `LastTxAt` are the same for the writes.
  pub session-times :
      (r : Option (Callback P C))
      → Watches r
      → (ctx : C) (ncon : NetConn) (now : ℤ) (probe : Probe P) (os : List (Call P)) (w : World P C)
      → session r ctx ncon now probe os ≡ some w
      → All NonZero (picks read_time os)
      → All NonZero (picks write_time os)
      → (w.conn.first_rx_at ≡ first_or (pos 0) (picks read_time os))
        × (w.conn.last_rx_at ≡ last_or (pos 0) (picks read_time os))
        × (w.conn.first_tx_at ≡ first_or (pos 0) (picks write_time os))
        × (w.conn.last_tx_at ≡ last_or (pos 0) (picks write_time os))
  session-times r h ctx ncon now probe os w e hr hw =
      let z = wrapped-times (is_set r) ctx ncon now probe in
      (
        session-field (λ c. c.first_rx_at) (λ o. or_first (read_time o)) after-first_rx_at r h ctx
              ncon now probe os w e _ z.0
            ∙ fold_items-or_first read_time os (pos 0) refl hr,
        session-field (λ c. c.last_rx_at) (λ o. or_old (read_time o)) after-last_rx_at r h ctx ncon
              now probe os w e _ z.1
            ∙ fold_items-or_old read_time os (pos 0),
        session-field (λ c. c.first_tx_at) (λ o. or_first (write_time o)) after-first_tx_at r h ctx
              ncon now probe os w e _ z.2
            ∙ fold_items-or_first write_time os (pos 0) refl hw,
        session-field (λ c. c.last_tx_at) (λ o. or_old (write_time o)) after-last_tx_at r h ctx ncon
              now probe os w e _ z.3
            ∙ fold_items-or_old write_time os (pos 0),
      )

  -- With no callback, or one that returns and changes nothing when it finds the lock free: at the
  -- end of a session, `RxErr` is the last error of a read that was a `net.Error` and no timeout,
  -- while `TxErr` is the error of the last write, whatever it was: a write that succeeds clears it,
  -- and a timeout is kept.
  pub session-errors :
      (r : Option (Callback P C))
      → Watches r
      → (ctx : C) (ncon : NetConn) (now : ℤ) (probe : Probe P) (os : List (Call P)) (w : World P C)
      → session r ctx ncon now probe os ≡ some w
      → (w.conn.rx_err ≡ last_or none (picks lasting_read_error os))
        × (w.conn.tx_err ≡ last_or none (picks write_outcome os))
  session-errors r h ctx ncon now probe os w e =
      let z = wrapped-times (is_set r) ctx ncon now probe in
      (
        session-field (λ c. c.rx_err) (λ o. or_old (lasting_read_error o)) after-rx_err r h ctx ncon
              now probe os w e _ z.4
            ∙ fold_items-or_old lasting_read_error os none,
        session-field (λ c. c.tx_err) (λ o. or_old (write_outcome o)) after-tx_err r h ctx ncon now
              probe os w e _ z.5
            ∙ fold_items-or_old write_outcome os none,
      )
