-- ===== src/Tcpinfo/Windows/Unpack.antt =====
-- pkg/tcpinfo/tcpinfo_windows.go: the names of the states, and `Unpack` of the two structs.
use sockstats.Common.Int.{pos}
use sockstats.Common.{ℕ, [], ◌∷◌}
use sockstats.Tcpinfo.Duration.{duration, millisecond, microsecond}
use sockstats.Tcpinfo.Names.{Names, name_of}
use sockstats.Tcpinfo.Windows.Raw.{RawInfoV0, RawInfoV1}
use sockstats.Tcpinfo.Windows.SysInfo.{SysInfo}

-- `tcpStateMap`
abbrev pub tcp_state_map : Names
tcp_state_map =
    (4, "ESTABLISHED")
    ∷ (2, "SYN_SENT")
    ∷ (3, "SYN_RECV")
    ∷ (5, "FIN_WAIT1")
    ∷ (6, "FIN_WAIT2")
    ∷ (10, "TIME_WAIT")
    ∷ (0, "CLOSE")
    ∷ (7, "CLOSE_WAIT")
    ∷ (9, "LAST_ACK")
    ∷ (1, "LISTEN")
    ∷ (8, "CLOSING")
    ∷ []

abbrev pub time_field_multiplier : ℕ
time_field_multiplier = microsecond

-- `(*RawInfoV0).Unpack`
unfoldable pub unpack_v0 : RawInfoV0 → SysInfo
unpack_v0 packed = record {
  state = packed.state;
  state_name = name_of packed.state tcp_state_map;
  mss = packed.mss;
  connected_time_ns = duration millisecond packed.connection_time_ms;
  rtt = duration microsecond packed.rtt_us;
  rtt_min = duration microsecond packed.min_rtt_us;
  bytes_in_flight = packed.bytes_in_flight;
  congestion_window = packed.cwnd;
  tx_window = packed.snd_wnd;
  rx_window = packed.rcv_wnd;
  rx_buffer = packed.rcv_buf;
  tx_bytes = packed.bytes_out;
  rx_bytes = packed.bytes_in;
  rx_out_of_order_bytes = packed.bytes_reordered;
  tx_retransmit_bytes = packed.bytes_retrans;
  fast_retrans = packed.fast_retrans;
  dup_acks_in = packed.dup_acks_in;
  timeout_episodes = packed.timeout_episodes;
  syn_retrans = packed.syn_retrans;
  snd_lim_trans_rwin = 0;
  snd_lim_trans_time_rwin = pos 0;
  snd_lim_bytes_rwin = 0;
  snd_lim_trans_cwnd = 0;
  snd_lim_time_cwnd = pos 0;
  snd_lim_bytes_cwnd = 0;
  snd_lim_trans_snd = 0;
  snd_lim_time_snd = pos 0;
  snd_lim_bytes_snd = 0;
}

-- `(*RawInfoV1).Unpack`
unfoldable pub unpack_v1 : RawInfoV1 → SysInfo
unpack_v1 packed = record {
  state = packed.state;
  state_name = name_of packed.state tcp_state_map;
  mss = packed.mss;
  connected_time_ns = duration time_field_multiplier packed.connection_time_ms;
  rtt = duration microsecond packed.rtt_us;
  rtt_min = duration microsecond packed.min_rtt_us;
  bytes_in_flight = packed.bytes_in_flight;
  congestion_window = packed.cwnd;
  tx_window = packed.snd_wnd;
  rx_window = packed.rcv_wnd;
  rx_buffer = packed.rcv_buf;
  tx_bytes = packed.bytes_out;
  rx_bytes = packed.bytes_in;
  rx_out_of_order_bytes = packed.bytes_reordered;
  tx_retransmit_bytes = packed.bytes_retrans;
  fast_retrans = packed.fast_retrans;
  dup_acks_in = packed.dup_acks_in;
  timeout_episodes = packed.timeout_episodes;
  syn_retrans = packed.syn_retrans;
  snd_lim_trans_rwin = packed.snd_lim_trans_rwin;
  snd_lim_trans_time_rwin = duration millisecond packed.snd_lim_time_rwin;
  snd_lim_bytes_rwin = packed.snd_lim_bytes_rwin;
  snd_lim_trans_cwnd = packed.snd_lim_trans_cwnd;
  snd_lim_time_cwnd = duration millisecond packed.snd_lim_time_cwnd;
  snd_lim_bytes_cwnd = packed.snd_lim_bytes_cwnd;
  snd_lim_trans_snd = packed.snd_lim_trans_snd;
  snd_lim_time_snd = duration millisecond packed.snd_lim_time_snd;
  snd_lim_bytes_snd = packed.snd_lim_bytes_snd;
}
