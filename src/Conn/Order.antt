-- ===== src/Conn/Order.antt =====
-- wrap.go: the byte counters of sessions with the same calls.
use mathlib.Core.List.{Permᴰ}
use sockstats.Common.Int.{ℤ, pos, ◌+ℤ◌, zero_add, add_left_comm}
use sockstats.Common.Word.{wrap_64}
use sockstats.Common.{◌≡◌, refl, sym, ap, ◌∙◌, Option, some, List, ◌∷◌}
use sockstats.Conn.Effect.{Watches}
use sockstats.Conn.Methods.{Call, read_of, write_of, set_reconnects_of, close_of, session}
use sockstats.Conn.Platform.{Platform}
use sockstats.Conn.Report.{Callback, Probe}
use sockstats.Conn.State.{NetConn, World}
use sockstats.Conn.Sums.{total_read, total_written, session-bytes}

-- A sum of a size of each item is the same in every order.
module _ {A : Type 0} (size : A → ℤ) (total : List A → ℤ) where
  pub total-Perm :
      ((x : A) (xs : List A) → total (x ∷ xs) ≡ size x +ℤ total xs)
      → {xs ys : List A} → Permᴰ xs ys
      → total xs ≡ total ys
  total-Perm step Permᴰ.nil = refl
  total-Perm step (Permᴰ.cons {a = x} {b = y} {l₁ = xs} {l₂ = ys} e d) =
      step x xs
      ∙ ap (λ t. size x +ℤ t) (total-Perm step d)
      ∙ ap (λ z. size z +ℤ total ys) e
      ∙ sym (step y ys)
  total-Perm step (Permᴰ.swap {a = x} {b = y} {a' = z} {b' = u} {l = xs} e f) =
      step x (y ∷ xs)
      ∙ ap (λ t. size x +ℤ t) (step y xs)
      ∙ add_left_comm (size x) (size y) (total xs)
      ∙ ap (λ v. size v +ℤ (size x +ℤ total xs)) f
      ∙ ap (λ v. size z +ℤ (size v +ℤ total xs)) e
      ∙ ap (λ t. size z +ℤ t) (sym (step u xs))
      ∙ sym (step z (u ∷ xs))
  total-Perm step (Permᴰ.trans d e) = total-Perm step d ∙ total-Perm step e

module _ {P : Platform} where
  unfoldable pub read_size : Call P → ℤ
  read_size (read_of n _ _) = n
  read_size _ = pos 0

  unfoldable pub written_size : Call P → ℤ
  written_size (write_of n _ _) = n
  written_size _ = pos 0

  pub total_read-cons :
      (o : Call P) (os : List (Call P)) → total_read (o ∷ os) ≡ read_size o +ℤ total_read os
  unfolding read_size
  total_read-cons (read_of n err ts) os = refl
  total_read-cons (write_of n err ts) os = sym (zero_add (total_read os))
  total_read-cons (set_reconnects_of r) os = sym (zero_add (total_read os))
  total_read-cons (close_of ts probe err) os = sym (zero_add (total_read os))

  pub total_written-cons :
      (o : Call P) (os : List (Call P))
      → total_written (o ∷ os) ≡ written_size o +ℤ total_written os
  unfolding written_size
  total_written-cons (read_of n err ts) os = sym (zero_add (total_written os))
  total_written-cons (write_of n err ts) os = refl
  total_written-cons (set_reconnects_of r) os = sym (zero_add (total_written os))
  total_written-cons (close_of ts probe err) os = sym (zero_add (total_written os))

module _ {P : Platform} {C : Type 0} where
  -- With no callback, or one that returns and changes nothing when it finds the lock free: two
  -- sessions of the same connection with the same calls in any two orders end with the same
  -- `RxBytes` and the same `TxBytes`.
  pub session-Perm :
      (r : Option (Callback P C))
      → Watches r
      → (ctx : C) (ncon : NetConn) (now : ℤ) (probe : Probe P) (os os' : List (Call P))
        (w w' : World P C)
      → session r ctx ncon now probe os ≡ some w
      → session r ctx ncon now probe os' ≡ some w'
      → Permᴰ os os'
      → (w.conn.rx_bytes ≡ w'.conn.rx_bytes) × (w.conn.tx_bytes ≡ w'.conn.tx_bytes)
  session-Perm r h ctx ncon now probe os os' w w' ran ran' d =
      let (rx, tx) = session-bytes r h ctx ncon now probe os w ran in
      let (rx', tx') = session-bytes r h ctx ncon now probe os' w' ran' in
      (
        rx ∙ ap wrap_64 (total-Perm read_size total_read total_read-cons d) ∙ sym rx',
        tx ∙ ap wrap_64 (total-Perm written_size total_written total_written-cons d) ∙ sym tx',
      )
