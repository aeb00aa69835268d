-- ===== src/Tcpinfo/Linux/SysInfo.antt =====
-- pkg/tcpinfo/tcpinfo_linux.go: the nullable values and `SysInfo`. The six `Nullable…` structs
-- are one record over the type of the value; a `time.Duration` is an integer of nanoseconds.
use Prim.Native.String.{String}
use sockstats.Common.Int.{ℤ}
use sockstats.Common.{ℕ, Bool, List}
use sockstats.Tcpinfo.TcpOption.{TcpOption}

pub record Nullable (A : Type 0) : Type 0 where
  pub valid : Bool
  pub value : A

pub record SysInfo : Type 0 where
  pub state : ℕ
  pub state_name : String
  pub ca_state : ℕ
  pub retransmits : ℕ
  pub probes : ℕ
  pub backoff : ℕ
  pub tx_options : List TcpOption
  pub rx_options : List TcpOption
  pub tx_window_scale : ℕ
  pub rx_window_scale : ℕ
  pub delivery_rate_app_limited : Nullable Bool
  pub fast_open_client_fail : Nullable ℕ
  pub rto : ℤ
  pub ato : ℤ
  pub tx_mss : ℕ
  pub rx_mss : ℕ
  pub un_acked : ℕ
  pub sacked : ℕ
  pub lost : ℕ
  pub retrans : ℕ
  pub fackets : ℕ
  pub last_tx_at : ℤ
  pub last_tx_ack_at : ℤ
  pub last_rx_at : ℤ
  pub last_rx_ack_at : ℤ
  pub pmtu : ℕ
  pub rx_ss_threshold : ℕ
  pub rtt : ℤ
  pub rtt_var : ℤ
  pub tx_ss_threshold : ℕ
  pub tx_c_window : ℕ
  pub adv_mss : ℕ
  pub reordering : ℕ
  pub rx_rtt : ℤ
  pub rx_space : ℕ
  pub total_retrans : ℕ
  pub pacing_rate : Nullable ℕ
  pub max_pacing_rate : Nullable ℕ
  pub bytes_acked : Nullable ℕ
  pub bytes_received : Nullable ℕ
  pub segs_out : Nullable ℕ
  pub segs_in : Nullable ℕ
  pub not_sent_bytes : Nullable ℕ
  pub min_rtt : Nullable ℤ
  pub data_segs_in : Nullable ℕ
  pub data_segs_out : Nullable ℕ
  pub delivery_rate : Nullable ℕ
  pub busy_time : Nullable ℕ
  pub rx_window_limited : Nullable ℕ
  pub tx_buffer_limited : Nullable ℕ
  pub delivered : Nullable ℕ
  pub delivered_ce : Nullable ℕ
  pub bytes_sent : Nullable ℕ
  pub bytes_retrans : Nullable ℕ
  pub dsack_dups : Nullable ℕ
  pub reord_seen : Nullable ℕ
  pub rx_out_of_order : Nullable ℕ
  pub tx_window : Nullable ℕ
  pub rx_window : Nullable ℕ
  pub rehash : Nullable ℕ
  pub total_rto : Nullable ℕ
  pub total_rto_recoveries : Nullable ℕ
  pub total_rto_time : Nullable ℕ
  pub cc_algorithm : String
  pub cc_vegas_enabled : Nullable ℕ
  pub cc_vegas_rtt_cnt : Nullable ℕ
  pub cc_vegas_rtt : Nullable ℤ
  pub cc_vegas_rtt_min : Nullable ℤ
  pub cc_bbr_bw_lo : Nullable ℕ
  pub cc_bbr_bw_hi : Nullable ℕ
  pub cc_bbr_min_rtt : Nullable ℤ
  pub cc_bbr_pacing_gain : Nullable ℕ
  pub cc_bbr_c_window_gain : Nullable ℕ
  pub cc_dctcp_enabled : Nullable Bool
  pub cc_dctcp_ce_state : Nullable ℕ
  pub cc_dctcp_alpha : Nullable ℕ
  pub cc_dctcp_ab_ecn : Nullable ℕ
  pub cc_dctcp_ab_tot : Nullable ℕ
