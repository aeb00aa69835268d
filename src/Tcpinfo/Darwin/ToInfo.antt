-- ===== src/Tcpinfo/Darwin/ToInfo.antt =====
-- pkg/tcpinfo/tcpinfo_darwin.go: `(*SysInfo).ToInfo` and `(*SysInfo).Warnings`.
use sockstats.Common.Int.{pos}
use sockstats.Common.Text.{Text, codes}
use sockstats.Common.{List, [], some, ltb}
use sockstats.Tcpinfo.Darwin.SysInfo.{SysInfo}
use sockstats.Tcpinfo.Info.{Info}
use sockstats.Tcpinfo.Warn.{warn_if}

unfoldable pub to_info : SysInfo → Info SysInfo
to_info s = record {
  state = s.state_name;
  tx_options = s.tx_options;
  rx_options = s.rx_options;
  tx_mss = s.max_seg;
  rx_mss = s.max_seg;
  rtt = s.srtt;
  rtt_var = s.rtt_var;
  rto = s.rto;
  ato = pos 0;
  last_tx_at = pos 0;
  last_rx_at = pos 0;
  last_tx_ack_at = pos 0;
  last_rx_ack_at = pos 0;
  rx_window = s.rx_window;
  tx_ss_threshold = s.tx_ss_threshold;
  rx_ss_threshold = 0;
  tx_window_bytes = s.tx_c_window;
  tx_window_segs = s.tx_window;
  retransmits = s.tx_retransmit_packets;
  sys = some s;
}

unfoldable pub warnings : SysInfo → List Text
warnings s =
    let w0 =
      warn_if (ltb 0 s.tx_retransmit_bytes) (codes "retransmitBytes=") s.tx_retransmit_bytes [] in
    let w1 =
      warn_if (ltb 0 s.tx_retransmit_packets) (codes "retransmitPackets=") s.tx_retransmit_packets
        w0 in
    warn_if (ltb 0 s.rx_out_of_order_bytes) (codes "outOfOrderBytes=") s.rx_out_of_order_bytes w1
