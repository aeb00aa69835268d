-- ===== src/Tcpinfo/Linux/Unpack/Values.antt =====
-- The values that `Unpack` computes: durations, window scales, and the window-scale option.
use Prim.Native.Nat.{bit_and}
use sockstats.Common.Int.{pos, ◌*ℤ◌}
use sockstats.Common.Table.{table, table-lookup}
use sockstats.Common.Word.{wrap_64_id}
use sockstats.Common.{ℕ, ◌+◌, ◌*◌, ◌/◌, ◌%◌, ◌^◌, ◌<◌, ◌≡◌, refl, ◌∙◌, true, arith, ◌==◌, eq_of_==}
use sockstats.Tcpinfo.Linux.Raw.{RawTcpInfo}
use sockstats.Tcpinfo.Linux.Unpack.{micros, unpack}
use sockstats.Tcpinfo.Linux.Versions.{Cells}

-- A 32-bit count of microseconds becomes nanoseconds with no overflow of the int64.
micros_exact : (n : ℕ) → n < 2 ^ 32 → micros n ≡ pos (n * 1000)
unfolding micros ◌*ℤ◌
micros_exact n h = wrap_64_id _ (ground arith) ∙ ground arith

-- The fields of the kernel's struct that hold times, in range of their uint32.
pub record TimesFit (packed : RawTcpInfo) : Type 0 where
  pub rto_fits : packed.rto < 2 ^ 32
  pub ato_fits : packed.ato < 2 ^ 32
  pub rtt_fits : packed.rtt < 2 ^ 32
  pub rttvar_fits : packed.rttvar < 2 ^ 32
  pub last_data_sent_fits : packed.last_data_sent < 2 ^ 32
  pub last_data_recv_fits : packed.last_data_recv < 2 ^ 32
  pub last_ack_sent_fits : packed.last_ack_sent < 2 ^ 32
  pub last_ack_recv_fits : packed.last_ack_recv < 2 ^ 32
  pub rcv_rtt_fits : packed.rcv_rtt < 2 ^ 32

-- Where the kernel's nine values are below 2 ^ 32, as a uint32 is, the nine times that every kernel
-- gives are reported as exactly 1000 times the value: the multiplication never wraps.
pub unpack-times :
    (at : Cells) (packed : RawTcpInfo)
    → TimesFit packed
    → let s = unpack at packed in
      (s.rto ≡ pos (packed.rto * 1000))
      × (s.ato ≡ pos (packed.ato * 1000))
      × (s.rtt ≡ pos (packed.rtt * 1000))
      × (s.rtt_var ≡ pos (packed.rttvar * 1000))
      × (s.last_tx_at ≡ pos (packed.last_data_sent * 1000))
      × (s.last_rx_at ≡ pos (packed.last_data_recv * 1000))
      × (s.last_tx_ack_at ≡ pos (packed.last_ack_sent * 1000))
      × (s.last_rx_ack_at ≡ pos (packed.last_ack_recv * 1000))
      × (s.rx_rtt ≡ pos (packed.rcv_rtt * 1000))
unfolding unpack
unpack-times at packed h = (
  micros_exact _ h.rto_fits,
  micros_exact _ h.ato_fits,
  micros_exact _ h.rtt_fits,
  micros_exact _ h.rttvar_fits,
  micros_exact _ h.last_data_sent_fits,
  micros_exact _ h.last_data_recv_fits,
  micros_exact _ h.last_ack_sent_fits,
  micros_exact _ h.last_ack_recv_fits,
  micros_exact _ h.rcv_rtt_fits,
)

scales_table : table (λ n. n / 16 * 16 + bit_and n 15 == n) 256 ≡ true
unfolding table
scales_table = refl

low_table : table (λ n. bit_and n 15 == n % 16) 256 ≡ true
unfolding table
low_table = refl

-- Where the bit field is a byte, the two window scales are its halves: each is below 16, and
-- together they give the byte back.
pub unpack-scales :
    (at : Cells) (packed : RawTcpInfo)
    → packed.bitfield0 < 256
    → let s = unpack at packed in
      (s.tx_window_scale < 16)
      × (s.rx_window_scale < 16)
      × (s.rx_window_scale * 16 + s.tx_window_scale ≡ packed.bitfield0)
unfolding unpack
unpack-scales at packed h =
    let low = eq_of_== _ _ (table-lookup _ packed.bitfield0 256 h low_table) in
    let whole = eq_of_== _ _ (table-lookup _ packed.bitfield0 256 h scales_table) in
    (omega (arith, low), omega arith, whole)
