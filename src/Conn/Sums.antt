-- ===== src/Conn/Sums.antt =====
-- wrap.go: the byte counters of a session.
use sockstats.Common.Int.{ℤ, pos, ◌+ℤ◌, add_assoc, add_zero, zero_add}
use sockstats.Common.Word.{wrap_64, wrap_64-add_left, wrap_64_id, wrap_64-IsInt64, IsInt64}
use sockstats.Common.{fold_items, ◌≡◌, refl, ◌∙◌, sym, ap, Bool, Option, some, List, [], ◌∷◌, arith}
use sockstats.Conn.Effect.{Watches, after, wrapped}
use sockstats.Conn.History.{session-field}
use sockstats.Conn.Methods.{Call, read_of, write_of, set_reconnects_of, close_of, session}
use sockstats.Conn.Platform.{Platform}
use sockstats.Conn.Report.{Callback, Probe, is_set, store_info}
use sockstats.Conn.State.{NetConn, Conn, World, track_read, track_write}

-- The counts that the underlying `Read` and `Write` give, added up as integers.
abbrev pub total_read : {P : Platform} → List (Call P) → ℤ
total_read [] = pos 0
total_read (read_of n _ _ ∷ os) = n +ℤ total_read os
total_read (_ ∷ os) = total_read os

abbrev pub total_written : {P : Platform} → List (Call P) → ℤ
total_written [] = pos 0
total_written (write_of n _ _ ∷ os) = n +ℤ total_written os
total_written (_ ∷ os) = total_written os

module _ {P : Platform} where
  abbrev pub add_read : Call P → ℤ → ℤ
  add_read (read_of n _ _) x = wrap_64 (x +ℤ n)
  add_read _ x = x

  abbrev pub add_written : Call P → ℤ → ℤ
  add_written (write_of n _ _) x = wrap_64 (x +ℤ n)
  add_written _ x = x

  pub after-add_read :
      {C : Type 0} (b : Bool) (o : Call P) (c : Conn P C)
      → (after b o c).rx_bytes ≡ add_read o c.rx_bytes
  unfolding track_read track_write store_info
  after-add_read b (read_of n err ts) c = ground arith
  after-add_read b (write_of n err ts) c = ground arith
  after-add_read b (set_reconnects_of r) c = refl
  after-add_read b (close_of ts probe err) c = ground arith

  pub after-add_written :
      {C : Type 0} (b : Bool) (o : Call P) (c : Conn P C)
      → (after b o c).tx_bytes ≡ add_written o c.tx_bytes
  unfolding track_read track_write store_info
  after-add_written b (read_of n err ts) c = ground arith
  after-add_written b (write_of n err ts) c = ground arith
  after-add_written b (set_reconnects_of r) c = refl
  after-add_written b (close_of ts probe err) c = ground arith

wrap_64-step : (x n t : ℤ) → wrap_64 (wrap_64 (x +ℤ n) +ℤ t) ≡ wrap_64 (x +ℤ (n +ℤ t))
wrap_64-step x n t = wrap_64-add_left (x +ℤ n) t ∙ ap wrap_64 (add_assoc x n t)

pub wrap_64-zero : (x : ℤ) → IsInt64 x → x ≡ wrap_64 (x +ℤ pos 0)
wrap_64-zero x h = sym (ap wrap_64 (add_zero x) ∙ wrap_64_id x h)

module _ {P : Platform} where
  fold_items-add_read :
      (os : List (Call P)) (x : ℤ)
      → IsInt64 x
      → fold_items add_read os x ≡ wrap_64 (x +ℤ total_read os)
  fold_items-add_read [] x h = wrap_64-zero x h
  fold_items-add_read (read_of n _ _ ∷ os) x h =
      fold_items-add_read os _ (wrap_64-IsInt64 _) ∙ wrap_64-step x n (total_read os)
  fold_items-add_read (write_of _ _ _ ∷ os) x h = fold_items-add_read os x h
  fold_items-add_read (set_reconnects_of _ ∷ os) x h = fold_items-add_read os x h
  fold_items-add_read (close_of _ _ _ ∷ os) x h = fold_items-add_read os x h

  fold_items-add_written :
      (os : List (Call P)) (x : ℤ)
      → IsInt64 x
      → fold_items add_written os x ≡ wrap_64 (x +ℤ total_written os)
  fold_items-add_written [] x h = wrap_64-zero x h
  fold_items-add_written (write_of n _ _ ∷ os) x h =
      fold_items-add_written os _ (wrap_64-IsInt64 _) ∙ wrap_64-step x n (total_written os)
  fold_items-add_written (read_of _ _ _ ∷ os) x h = fold_items-add_written os x h
  fold_items-add_written (set_reconnects_of _ ∷ os) x h = fold_items-add_written os x h
  fold_items-add_written (close_of _ _ _ ∷ os) x h = fold_items-add_written os x h

zero-IsInt64 : IsInt64 (pos 0)
zero-IsInt64 = ground arith

module _ {P : Platform} {C : Type 0} where
  wrapped-bytes :
      (b : Bool) (ctx : C) (ncon : NetConn) (now : ℤ) (probe : Probe P)
      → ((wrapped b ctx ncon now probe).rx_bytes ≡ pos 0)
        × ((wrapped b ctx ncon now probe).tx_bytes ≡ pos 0)
  unfolding store_info
  wrapped-bytes b ctx ncon now probe = ground arith

  -- With no callback, or one that returns and changes nothing when it finds the lock free: at the
  -- end of a session, `RxBytes` and `TxBytes` are the sums of the counts that the underlying `Read`
  -- and `Write` gave, failing calls included, kept to 64 bits once, at the end.
  pub session-bytes :
      (r : Option (Callback P C))
      → Watches r
      → (ctx : C) (ncon : NetConn) (now : ℤ) (probe : Probe P) (os : List (Call P)) (w : World P C)
      → session r ctx ncon now probe os ≡ some w
      → (w.conn.rx_bytes ≡ wrap_64 (total_read os)) × (w.conn.tx_bytes ≡ wrap_64 (total_written os))
  session-bytes r h ctx ncon now probe os w e =
      let z = wrapped-bytes (is_set r) ctx ncon now probe in
      (
        session-field (λ c. c.rx_bytes) add_read after-add_read r h ctx ncon now probe os w e _ z.0
            ∙ fold_items-add_read os (pos 0) zero-IsInt64
            ∙ ap wrap_64 (zero_add (total_read os)),
        session-field (λ c. c.tx_bytes) add_written after-add_written r h ctx ncon now probe os w e
              _ z.1
            ∙ fold_items-add_written os (pos 0) zero-IsInt64
            ∙ ap wrap_64 (zero_add (total_written os)),
      )
