-- ===== src/Tcpinfo/Linux/Unpack.antt =====
-- pkg/tcpinfo/tcpinfo_linux.go: `(*RawTCPInfo).Unpack`. The flags of the kernel version are the
-- argument `at`; each group of statements under `if kernelVersionIsAtLeast_…` is a `since`.
pub mod Options
pub mod Values
use Prim.Native.Nat.{bit_and}
use Prim.Native.String.{String}
use sockstats.Common.Int.{ℤ, pos, ◌*ℤ◌}
use sockstats.Common.Word.{wrap_64}
use sockstats.Common.{ℕ, ◌/◌, Bool, true, false, ◌||◌, List, [], ◌∷◌, ◌++◌, ◌==◌, if◌then◌else◌}
use sockstats.Tcpinfo.Linux.Raw.{RawTcpInfo}
use sockstats.Tcpinfo.Linux.SysInfo.{Nullable, SysInfo}
use sockstats.Tcpinfo.Linux.Versions.{
  Cells, at_least_3_15, at_least_4_1, at_least_4_2, at_least_4_6, at_least_4_9, at_least_4_10,
  at_least_4_18, at_least_4_19, at_least_5_4, at_least_5_5, at_least_6_2,
}
use sockstats.Tcpinfo.Names.{Names, name_of}
use sockstats.Tcpinfo.Options.{OptionTable, add_options}

-- `tcpStateMap`
abbrev pub tcp_state_map : Names
tcp_state_map =
    (1, "ESTABLISHED")
    ∷ (2, "SYN_SENT")
    ∷ (3, "SYN_RECV")
    ∷ (4, "FIN_WAIT1")
    ∷ (5, "FIN_WAIT2")
    ∷ (6, "TIME_WAIT")
    ∷ (7, "CLOSE")
    ∷ (8, "CLOSE_WAIT")
    ∷ (9, "LAST_ACK")
    ∷ (10, "LISTEN")
    ∷ (11, "CLOSING")
    ∷ []

abbrev pub wscale_flag : ℕ
wscale_flag = 4

-- `tcpOptionsMap`
abbrev pub tcp_options_map : Names
tcp_options_map =
    (1, "Timestamps")
    ∷ (2, "SACK")
    ∷ (wscale_flag, "WindowScale")
    ∷ (8, "ECN")
    ∷ (16, "ECNSeen")
    ∷ (32, "SYNData")
    ∷ (64, "UsecTS")
    ∷ (128, "TFOChild")
    ∷ []

-- `tcpOptions`
abbrev pub tcp_options : List ℕ
tcp_options = 1 ∷ 2 ∷ wscale_flag ∷ 8 ∷ 16 ∷ 32 ∷ 64 ∷ 128 ∷ []

-- The first `case` of the `switch flag`.
abbrev pub is_plain : ℕ → Bool
is_plain f = f == 1 || f == 2 || f == 8 || f == 16 || f == 32 || f == 64 || f == 128

abbrev pub linux_options : OptionTable
linux_options = record { names = tcp_options_map; is_plain = is_plain; scale = wscale_flag }

-- `time.Duration(n) * timeFieldMultiplier`: microseconds to nanoseconds, in an int64.
unfoldable pub micros : ℕ → ℤ
micros n = wrap_64 (pos n *ℤ pos 1000)

-- A nullable value that is not valid holds the zero of its type.
abbrev pub unset : {A : Type 0} → A → Nullable A
unset z = record { valid = false; value = z }

abbrev pub since : {A : Type 0} → Bool → A → A → Nullable A
since b x z = if b then record { valid = true; value = x } else unset z

unfoldable pub unpack : Cells → RawTcpInfo → SysInfo
unpack at packed =
    let both =
      add_options linux_options packed.options packed.snd_wnd packed.rcv_wnd tcp_options ([], []) in
    record {
      state = packed.state;
      state_name = name_of packed.state tcp_state_map;
      ca_state = packed.ca_state;
      retransmits = packed.retransmits;
      probes = packed.probes;
      backoff = packed.backoff;
      tx_options = both.0;
      rx_options = both.1;
      tx_window_scale = bit_and packed.bitfield0 15;
      rx_window_scale = packed.bitfield0 / 16;
      delivery_rate_app_limited = since (at at_least_4_9) (bit_and packed.bitfield1 1 == 1) false;
      fast_open_client_fail = since (at at_least_5_5) (bit_and (packed.bitfield1 / 2) 3) 0;
      rto = micros packed.rto;
      ato = micros packed.ato;
      tx_mss = packed.snd_mss;
      rx_mss = packed.rcv_mss;
      un_acked = packed.unacked;
      sacked = packed.sacked;
      lost = packed.lost;
      retrans = packed.retrans;
      fackets = packed.fackets;
      last_tx_at = micros packed.last_data_sent;
      last_tx_ack_at = micros packed.last_ack_sent;
      last_rx_at = micros packed.last_data_recv;
      last_rx_ack_at = micros packed.last_ack_recv;
      pmtu = packed.pmtu;
      rx_ss_threshold = packed.rcv_ssthresh;
      rtt = micros packed.rtt;
      rtt_var = micros packed.rttvar;
      tx_ss_threshold = packed.snd_ssthresh;
      tx_c_window = packed.snd_cwnd;
      adv_mss = packed.advmss;
      reordering = packed.reordering;
      rx_rtt = micros packed.rcv_rtt;
      rx_space = packed.rcv_space;
      total_retrans = packed.total_retrans;
      pacing_rate = since (at at_least_3_15) packed.pacing_rate 0;
      max_pacing_rate = since (at at_least_3_15) packed.max_pacing_rate 0;
      bytes_acked = since (at at_least_4_1) packed.bytes_acked 0;
      bytes_received = since (at at_least_4_1) packed.bytes_received 0;
      segs_out = since (at at_least_4_2) packed.segs_out 0;
      segs_in = since (at at_least_4_2) packed.segs_in 0;
      not_sent_bytes = since (at at_least_4_6) packed.notsent_bytes 0;
      min_rtt = since (at at_least_4_6) (micros packed.min_rtt) (pos 0);
      data_segs_in = since (at at_least_4_6) packed.data_segs_in 0;
      data_segs_out = since (at at_least_4_6) packed.data_segs_out 0;
      delivery_rate = since (at at_least_4_9) packed.delivery_rate 0;
      busy_time = since (at at_least_4_10) packed.busy_time 0;
      rx_window_limited = since (at at_least_4_10) packed.rwnd_limited 0;
      tx_buffer_limited = since (at at_least_4_10) packed.sndbuf_limited 0;
      delivered = since (at at_least_4_18) packed.delivered 0;
      delivered_ce = since (at at_least_4_18) packed.delivered_ce 0;
      bytes_sent = since (at at_least_4_19) packed.bytes_sent 0;
      bytes_retrans = since (at at_least_4_19) packed.bytes_retrans 0;
      dsack_dups = since (at at_least_4_19) packed.dsack_dups 0;
      reord_seen = since (at at_least_4_19) packed.reord_seen 0;
      rx_out_of_order = since (at at_least_5_4) packed.rcv_ooopack 0;
      tx_window = since (at at_least_5_4) packed.snd_wnd 0;
      rx_window = since (at at_least_6_2) packed.rcv_wnd 0;
      rehash = since (at at_least_6_2) packed.rehash 0;
      total_rto = since (at at_least_6_2) packed.total_rto 0;
      total_rto_recoveries = since (at at_least_6_2) packed.total_rto_recoveries 0;
      total_rto_time = since (at at_least_6_2) packed.total_rto_time 0;
      cc_algorithm = "";
      cc_vegas_enabled = unset 0;
      cc_vegas_rtt_cnt = unset 0;
      cc_vegas_rtt = unset (pos 0);
      cc_vegas_rtt_min = unset (pos 0);
      cc_bbr_bw_lo = unset 0;
      cc_bbr_bw_hi = unset 0;
      cc_bbr_min_rtt = unset (pos 0);
      cc_bbr_pacing_gain = unset 0;
      cc_bbr_c_window_gain = unset 0;
      cc_dctcp_enabled = unset false;
      cc_dctcp_ce_state = unset 0;
      cc_dctcp_alpha = unset 0;
      cc_dctcp_ab_ecn = unset 0;
      cc_dctcp_ab_tot = unset 0;
    }
