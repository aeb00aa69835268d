-- ===== src/Tcpinfo/Windows/Raw.antt =====
-- pkg/tcpinfo/tcpinfo_windows.go: `RawInfoV0` and `RawInfoV1`, the structs that SIO_TCP_INFO fills.
use sockstats.Common.{ℕ, Bool}

pub record RawInfoV0 : Type 0 where
  pub state : ℕ  -- uint32
  pub mss : ℕ  -- uint32
  pub connection_time_ms : ℕ  -- uint64
  pub timestamps_enabled : Bool
  pub rtt_us : ℕ  -- uint32
  pub min_rtt_us : ℕ  -- uint32
  pub bytes_in_flight : ℕ  -- uint32
  pub cwnd : ℕ  -- uint32
  pub snd_wnd : ℕ  -- uint32
  pub rcv_wnd : ℕ  -- uint32
  pub rcv_buf : ℕ  -- uint32
  pub bytes_out : ℕ  -- uint64
  pub bytes_in : ℕ  -- uint64
  pub bytes_reordered : ℕ  -- uint32
  pub bytes_retrans : ℕ  -- uint32
  pub fast_retrans : ℕ  -- uint32
  pub dup_acks_in : ℕ  -- uint32
  pub timeout_episodes : ℕ  -- uint32
  pub syn_retrans : ℕ  -- uint8

pub record RawInfoV1 : Type 0 where
  pub state : ℕ  -- uint32
  pub mss : ℕ  -- uint32
  pub connection_time_ms : ℕ  -- uint64
  pub timestamps_enabled : Bool
  pub rtt_us : ℕ  -- uint32
  pub min_rtt_us : ℕ  -- uint32
  pub bytes_in_flight : ℕ  -- uint32
  pub cwnd : ℕ  -- uint32
  pub snd_wnd : ℕ  -- uint32
  pub rcv_wnd : ℕ  -- uint32
  pub rcv_buf : ℕ  -- uint32
  pub bytes_out : ℕ  -- uint64
  pub bytes_in : ℕ  -- uint64
  pub bytes_reordered : ℕ  -- uint32
  pub bytes_retrans : ℕ  -- uint32
  pub fast_retrans : ℕ  -- uint32
  pub dup_acks_in : ℕ  -- uint32
  pub timeout_episodes : ℕ  -- uint32
  pub syn_retrans : ℕ  -- uint8
  pub snd_lim_trans_rwin : ℕ  -- uint32
  pub snd_lim_time_rwin : ℕ  -- uint32
  pub snd_lim_bytes_rwin : ℕ  -- uint64
  pub snd_lim_trans_cwnd : ℕ  -- uint32
  pub snd_lim_time_cwnd : ℕ  -- uint32
  pub snd_lim_bytes_cwnd : ℕ  -- uint64
  pub snd_lim_trans_snd : ℕ  -- uint32
  pub snd_lim_time_snd : ℕ  -- uint32
  pub snd_lim_bytes_snd : ℕ  -- uint64
