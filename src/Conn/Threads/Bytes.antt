-- ===== src/Conn/Threads/Bytes.antt =====
-- wrap.go: the byte counters of a connection that goroutines share.
use mathlib.Core.List.{Permᴰ, append-nil}
use mathlib.Core.Path.{subst}
use sockstats.Common.Int.{ℤ, ◌+ℤ◌, add_assoc}
use sockstats.Common.Word.{wrap_64, wrap_64-add_left, IsInt64}
use sockstats.Common.{ℕ, ◌≡◌, refl, ap, ◌∙◌, Bool, true, List, [], ◌∷◌, ◌++◌, All, arith}
use sockstats.Conn.Methods.{Call, read_of, write_of, set_reconnects_of, close_of}
use sockstats.Conn.Order.{read_size, written_size, total_read-cons, total_written-cons, total-Perm}
use sockstats.Conn.Platform.{Platform}
use sockstats.Conn.Report.{Probe, closed, store_info}
use sockstats.Conn.State.{Conn}
use sockstats.Conn.Sums.{
  total_read, total_written, add_read, add_written, after-add_read, after-add_written, wrap_64-zero,
}
use sockstats.Conn.Threads.Calls.{to_make, all_to_make, made, all_calls}
use sockstats.Conn.Threads.Interleaved.{Reach-calls}
use sockstats.Conn.Threads.Progress.{is_done}
use sockstats.Conn.Threads.Serial.{replay, Reach-replay}
use sockstats.Conn.Threads.{
  Goroutine, ready, inside, changing, checking, gathering, waiting, storing, setting, reporting,
  Section, called, stored, System, run_section, Reach, start,
}

-- A count that is added to a wrapped sum goes to the front of what the sum adds.
wrap_64-add_front : (x t n : ℤ) → wrap_64 (wrap_64 (x +ℤ t) +ℤ n) ≡ wrap_64 (x +ℤ (n +ℤ t))
wrap_64-add_front x t n =
    wrap_64-add_left (x +ℤ t) n
    ∙ ap wrap_64 (add_assoc x t n)
    ∙ ap (λ y. wrap_64 (x +ℤ y)) (add_comm t n)
  where
    add_comm : (a b : ℤ) → a +ℤ b ≡ b +ℤ a
    add_comm a b = unfold ◌+ℤ◌ in ground arith

module _ {P : Platform} where
  next_read :
      (o : Call P) (os : List (Call P)) (x : ℤ)
      → add_read o (wrap_64 (x +ℤ total_read os)) ≡ wrap_64 (x +ℤ total_read (o ∷ os))
  next_read (read_of n err ts) os x = wrap_64-add_front x (total_read os) n
  next_read (write_of n err ts) os x = refl
  next_read (set_reconnects_of r) os x = refl
  next_read (close_of ts probe err) os x = refl

  next_written :
      (o : Call P) (os : List (Call P)) (x : ℤ)
      → add_written o (wrap_64 (x +ℤ total_written os)) ≡ wrap_64 (x +ℤ total_written (o ∷ os))
  next_written (write_of n err ts) os x = wrap_64-add_front x (total_written os) n
  next_written (read_of n err ts) os x = refl
  next_written (set_reconnects_of r) os x = refl
  next_written (close_of ts probe err) os x = refl

  all_to_make-done :
      (gs : List (Goroutine P)) → All (λ g. is_done g ≡ true) gs → all_to_make gs ≡ []
  all_to_make-done [] h = refl
  all_to_make-done (g ∷ gs) (d, h) =
      ap (λ os. os ++ all_to_make gs) (nothing g d) ∙ all_to_make-done gs h
    where
      nothing : (g : Goroutine P) → is_done g ≡ true → to_make g ≡ []
      nothing (ready []) d = refl
      nothing (ready (_ ∷ _)) d = ground arith
      nothing (inside _ _) d = ground arith
      nothing (changing _ _) d = ground arith
      nothing (checking _ _) d = ground arith
      nothing (gathering _ _) d = ground arith
      nothing (waiting _ _) d = ground arith
      nothing (storing _ _) d = ground arith
      nothing (setting _ _) d = ground arith
      nothing (reporting _) d = ground arith

module _ {P : Platform} {C : Type 0} where
  section-read :
      (o : Call P) (c : Conn P C) → (run_section (called o) c).rx_bytes ≡ add_read o c.rx_bytes
  section-read (read_of n err ts) c = after-add_read true (read_of n err ts) c
  section-read (write_of n err ts) c = after-add_read true (write_of n err ts) c
  section-read (set_reconnects_of r) c = refl
  section-read (close_of ts probe err) c = refl

  section-written :
      (o : Call P) (c : Conn P C) → (run_section (called o) c).tx_bytes ≡ add_written o c.tx_bytes
  section-written (read_of n err ts) c = after-add_written true (read_of n err ts) c
  section-written (write_of n err ts) c = after-add_written true (write_of n err ts) c
  section-written (set_reconnects_of r) c = refl
  section-written (close_of ts probe err) c = refl

  stored-bytes :
      (probe : Probe P) (c : Conn P C)
      → ((store_info closed probe c).rx_bytes ≡ c.rx_bytes)
        × ((store_info closed probe c).tx_bytes ≡ c.tx_bytes)
  unfolding store_info
  stored-bytes probe c = ground arith

  replay-read :
      (log : List (ℕ × Section P)) (c : Conn P C)
      → IsInt64 c.rx_bytes
      → (replay log c).rx_bytes ≡ wrap_64 (c.rx_bytes +ℤ total_read (made log))
  replay-read [] c h = wrap_64-zero c.rx_bytes h
  replay-read ((_, called o) ∷ log) c h =
      section-read o (replay log c)
      ∙ ap (add_read o) (replay-read log c h)
      ∙ next_read o (made log) c.rx_bytes
  replay-read ((_, stored probe) ∷ log) c h =
      (stored-bytes probe (replay log c)).0 ∙ replay-read log c h

  replay-written :
      (log : List (ℕ × Section P)) (c : Conn P C)
      → IsInt64 c.tx_bytes
      → (replay log c).tx_bytes ≡ wrap_64 (c.tx_bytes +ℤ total_written (made log))
  replay-written [] c h = wrap_64-zero c.tx_bytes h
  replay-written ((_, called o) ∷ log) c h =
      section-written o (replay log c)
      ∙ ap (add_written o) (replay-written log c h)
      ∙ next_written o (made log) c.tx_bytes
  replay-written ((_, stored probe) ∷ log) c h =
      (stored-bytes probe (replay log c)).1 ∙ replay-written log c h

  -- However the goroutines are interleaved, from a connection whose mutex is free and whose counters
  -- are int64: when all the goroutines have made all of their calls, `RxBytes` and `TxBytes` have
  -- grown by the counts of all the reads and of all the writes, kept to 64 bits. No update is lost.
  pub Reach-bytes :
      (b : Bool) (c : Conn P C) (programs : List (List (Call P))) (n : ℕ) (t : System P C)
      → IsInt64 c.rx_bytes
      → IsInt64 c.tx_bytes
      → Reach b (start c programs) n t
      → All (λ g. is_done g ≡ true) t.goroutines
      → (t.shared.conn.rx_bytes ≡ wrap_64 (c.rx_bytes +ℤ total_read (all_calls programs)))
        × (t.shared.conn.tx_bytes ≡ wrap_64 (c.tx_bytes +ℤ total_written (all_calls programs)))
  Reach-bytes b c programs n t rx tx r done =
      let serial = Reach-replay b c programs n t r in
      let all : Permᴰ (made t.shared.log) (all_calls programs) =
        subst (λ l. Permᴰ l (all_calls programs))
          (ap (λ l. made t.shared.log ++ l) (all_to_make-done t.goroutines done)
            ∙ append-nil (made t.shared.log))
          (Reach-calls b c programs n t r) in
      (
        ap (λ c. c.rx_bytes) serial
            ∙ replay-read t.shared.log c rx
            ∙ ap (λ s. wrap_64 (c.rx_bytes +ℤ s))
                (total-Perm read_size total_read total_read-cons all),
        ap (λ c. c.tx_bytes) serial
            ∙ replay-written t.shared.log c tx
            ∙ ap (λ s. wrap_64 (c.tx_bytes +ℤ s))
                (total-Perm written_size total_written total_written-cons all),
      )
