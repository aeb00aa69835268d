-- ===== src/Tcpinfo/Windows/ToInfo.antt =====
-- pkg/tcpinfo/tcpinfo_windows.go: `(*SysInfo).ToInfo` and `(*SysInfo).Warnings`.
use sockstats.Common.Int.{pos}
use sockstats.Common.Text.{Text, codes}
use sockstats.Common.{List, [], some, ltb}
use sockstats.Tcpinfo.Info.{Info}
use sockstats.Tcpinfo.Warn.{warn_if}
use sockstats.Tcpinfo.Windows.SysInfo.{SysInfo}

unfoldable pub to_info : SysInfo → Info SysInfo
to_info s = record {
  state = s.state_name;
  tx_options = [];
  rx_options = [];
  tx_mss = s.mss;
  rx_mss = 0;
  rtt = s.rtt_min;
  rtt_var = pos 0;
  rto = pos 0;
  ato = pos 0;
  last_tx_at = pos 0;
  last_rx_at = pos 0;
  last_tx_ack_at = pos 0;
  last_rx_ack_at = pos 0;
  rx_window = s.rx_window;
  tx_ss_threshold = 0;
  rx_ss_threshold = 0;
  tx_window_bytes = 0;
  tx_window_segs = s.tx_window;
  retransmits = s.syn_retrans;
  sys = some s;
}

unfoldable pub warnings : SysInfo → List Text
warnings s =
    let w0 =
      warn_if (ltb 0 s.tx_retransmit_bytes) (codes "retransmitBytes=") s.tx_retransmit_bytes [] in
    let w1 = warn_if (ltb 0 s.syn_retrans) (codes "retransmitSyn=") s.syn_retrans w0 in
    let w2 =
      warn_if (ltb 0 s.rx_out_of_order_bytes) (codes "outOfOrderBytes=") s.rx_out_of_order_bytes
        w1 in
    let w3 = warn_if (ltb 0 s.timeout_episodes) (codes "timeoutEpisodes=") s.timeout_episodes w2 in
    let w4 = warn_if (ltb 0 s.dup_acks_in) (codes "duplicateAcksIn=") s.dup_acks_in w3 in
    warn_if (ltb 0 s.fast_retrans) (codes "fastRetransmissions=") s.fast_retrans w4
