-- ===== src/Tcpinfo/Darwin/Raw.antt =====
-- pkg/tcpinfo/tcpinfo_darwin.go: `RawInfo`, the kernel's struct tcp_connection_info without its padding.
use sockstats.Common.{ℕ}

pub record RawInfo : Type 0 where
  pub state : ℕ  -- uint8
  pub send_wscale : ℕ  -- uint8
  pub recv_wscale : ℕ  -- uint8
  pub options : ℕ  -- uint32
  pub flags : ℕ  -- uint32
  pub rto : ℕ  -- uint32
  pub max_seg : ℕ  -- uint32
  pub send_ss_thresh : ℕ  -- uint32
  pub send_cwnd : ℕ  -- uint32
  pub send_wnd : ℕ  -- uint32
  pub send_sb_bytes : ℕ  -- uint32
  pub recv_wnd : ℕ  -- uint32
  pub rtt_cur : ℕ  -- uint32
  pub srtt : ℕ  -- uint32
  pub rtt_var : ℕ  -- uint32
  pub tfo_flags : ℕ  -- uint32
  pub tx_packets : ℕ  -- uint64
  pub tx_bytes : ℕ  -- uint64
  pub tx_retransmit_bytes : ℕ  -- uint64
  pub rx_packets : ℕ  -- uint64
  pub rx_bytes : ℕ  -- uint64
  pub rx_out_of_order_bytes : ℕ  -- uint64
  pub tx_retransmit_packets : ℕ  -- uint64
