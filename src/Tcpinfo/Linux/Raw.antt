-- ===== src/Tcpinfo/Linux/Raw.antt =====
-- pkg/tcpinfo/tcpinfo_linux.go: `RawTCPInfo`, the kernel's struct tcp_info. A value that the
-- kernel wrote is below 2 ^ width.
use sockstats.Common.{ℕ}

pub record RawTcpInfo : Type 0 where
  pub state : ℕ  -- uint8
  pub ca_state : ℕ  -- uint8
  pub retransmits : ℕ  -- uint8
  pub probes : ℕ  -- uint8
  pub backoff : ℕ  -- uint8
  pub options : ℕ  -- uint8
  pub bitfield0 : ℕ  -- uint8
  pub bitfield1 : ℕ  -- uint8
  pub rto : ℕ  -- uint32
  pub ato : ℕ  -- uint32
  pub snd_mss : ℕ  -- uint32
  pub rcv_mss : ℕ  -- uint32
  pub unacked : ℕ  -- uint32
  pub sacked : ℕ  -- uint32
  pub lost : ℕ  -- uint32
  pub retrans : ℕ  -- uint32
  pub fackets : ℕ  -- uint32
  pub last_data_sent : ℕ  -- uint32
  pub last_ack_sent : ℕ  -- uint32
  pub last_data_recv : ℕ  -- uint32
  pub last_ack_recv : ℕ  -- uint32
  pub pmtu : ℕ  -- uint32
  pub rcv_ssthresh : ℕ  -- uint32
  pub rtt : ℕ  -- uint32
  pub rttvar : ℕ  -- uint32
  pub snd_ssthresh : ℕ  -- uint32
  pub snd_cwnd : ℕ  -- uint32
  pub advmss : ℕ  -- uint32
  pub reordering : ℕ  -- uint32
  pub rcv_rtt : ℕ  -- uint32
  pub rcv_space : ℕ  -- uint32
  pub total_retrans : ℕ  -- uint32
  pub pacing_rate : ℕ  -- uint64
  pub max_pacing_rate : ℕ  -- uint64
  pub bytes_acked : ℕ  -- uint64
  pub bytes_received : ℕ  -- uint64
  pub segs_out : ℕ  -- uint32
  pub segs_in : ℕ  -- uint32
  pub notsent_bytes : ℕ  -- uint32
  pub min_rtt : ℕ  -- uint32
  pub data_segs_in : ℕ  -- uint32
  pub data_segs_out : ℕ  -- uint32
  pub delivery_rate : ℕ  -- uint64
  pub busy_time : ℕ  -- uint64
  pub rwnd_limited : ℕ  -- uint64
  pub sndbuf_limited : ℕ  -- uint64
  pub delivered : ℕ  -- uint32
  pub delivered_ce : ℕ  -- uint32
  pub bytes_sent : ℕ  -- uint64
  pub bytes_retrans : ℕ  -- uint64
  pub dsack_dups : ℕ  -- uint32
  pub reord_seen : ℕ  -- uint32
  pub rcv_ooopack : ℕ  -- uint32
  pub snd_wnd : ℕ  -- uint32
  pub rcv_wnd : ℕ  -- uint32
  pub rehash : ℕ  -- uint32
  pub total_rto : ℕ  -- uint16
  pub total_rto_recoveries : ℕ  -- uint16
  pub total_rto_time : ℕ  -- uint32
