-- ===== src/Tcpinfo/Linux/ToInfo.antt =====
-- pkg/tcpinfo/tcpinfo_linux.go: `(*SysInfo).ToInfo` and `(*SysInfo).Warnings`.
pub mod Quiet
use sockstats.Common.Int.{pos}
use sockstats.Common.Text.{Text, codes, format_uint}
use sockstats.Common.{ℕ, Bool, ◌&&◌, Option, some, List, [], ◌∷◌, ◌++◌, ltb, if◌then◌else◌}
use sockstats.Tcpinfo.Info.{Info}
use sockstats.Tcpinfo.Linux.SysInfo.{Nullable, SysInfo}
use sockstats.Tcpinfo.Warn.{warn_if}

-- The conversions to uint64 widen. `TxWindowBytes` is not set.
unfoldable pub to_info : SysInfo → Info SysInfo
to_info s = record {
  state = s.state_name;
  tx_options = s.tx_options;
  rx_options = s.rx_options;
  tx_mss = s.tx_mss;
  rx_mss = s.rx_mss;
  rtt = s.rtt;
  rtt_var = s.rtt_var;
  rto = s.rto;
  ato = s.ato;
  last_tx_at = s.last_tx_at;
  last_rx_at = s.last_rx_at;
  last_tx_ack_at = s.last_tx_ack_at;
  last_rx_ack_at = s.last_rx_ack_at;
  rx_window = s.rx_space;
  tx_ss_threshold = s.tx_ss_threshold;
  rx_ss_threshold = s.rx_ss_threshold;
  tx_window_bytes = 0;
  tx_window_segs = s.tx_c_window;
  retransmits = s.total_retrans;
  sys = some s;
}

-- `n.Valid && n.Value > 0`
abbrev pub positive : Nullable ℕ → Bool
positive n = n.valid && ltb 0 n.value

unfoldable pub warnings : SysInfo → List Text
warnings s =
    let w0 = warn_if (positive s.bytes_retrans) (codes "retransBytes=") s.bytes_retrans.value [] in
    let w1 = warn_if (ltb 0 s.total_retrans) (codes "retransTotal=") s.total_retrans w0 in
    let w2 = warn_if (ltb 0 s.backoff) (codes "backoff=") s.backoff w1 in
    let w3 =
      warn_if (positive s.rx_out_of_order) (codes "outOfOrderBytes=") s.rx_out_of_order.value w2 in
    let w4 =
      warn_if (positive s.tx_buffer_limited) (codes "txSendBufferLimited=")
        s.tx_buffer_limited.value w3 in
    warn_if (positive s.rx_window_limited) (codes "rxWindowLimited=") s.rx_window_limited.value w4
