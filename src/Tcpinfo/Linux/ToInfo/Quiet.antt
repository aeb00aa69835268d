-- ===== src/Tcpinfo/Linux/ToInfo/Quiet.antt =====
-- How many warnings the statistics of a connection give.
use sockstats.Common.Text.{Text}
use sockstats.Common.{
  ℕ, ◌+◌, ◌≡◌, Bool, true, false, List, length, length-append, arith, ltb, if◌then◌else◌,
}
use sockstats.Tcpinfo.Linux.SysInfo.{SysInfo}
use sockstats.Tcpinfo.Linux.ToInfo.{positive, warn_if, warnings}

abbrev pub count_if : Bool → ℕ
count_if b = if b then 1 else 0

length-warn_if :
    (b : Bool) (name : Text) (n : ℕ) (ws : List Text)
    → length (warn_if b name n ws) ≡ length ws + count_if b
length-warn_if true name n ws = length-append ws _
length-warn_if false name n ws = omega arith

-- There is one warning for each of the six counters that is not zero, where a nullable counter that
-- is not valid counts as zero.
pub length-warnings :
    (s : SysInfo)
    → length (warnings s)
      ≡ count_if (positive s.bytes_retrans)
        + count_if (ltb 0 s.total_retrans)
        + count_if (ltb 0 s.backoff)
        + count_if (positive s.rx_out_of_order)
        + count_if (positive s.tx_buffer_limited)
        + count_if (positive s.rx_window_limited)
unfolding warnings
length-warnings s = omega (arith, length-warn_if)
