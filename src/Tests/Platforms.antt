-- ===== src/Tests/Platforms.antt =====
-- pkg/tcpinfo on Windows and on Darwin, on concrete structs.
use sockstats.Common.Int.{pos}
use sockstats.Common.Text.{Text, codes}
use sockstats.Common.{◌≡◌, refl, true, false, some, inl, inr, arith, Result, ok, err}
use sockstats.Tcpinfo.AnyMap.Kinds.{fits, kind}
use sockstats.Tcpinfo.AnyMap.{int, lookup}
use sockstats.Tcpinfo.Darwin.Raw.{RawInfo}
use sockstats.Tcpinfo.Darwin.SysInfo as DarwinSysInfo
use sockstats.Tcpinfo.Darwin.ToInfo.{to_info}
use sockstats.Tcpinfo.Darwin.Unpack as Darwin
use sockstats.Tcpinfo.Linux.Unpack.{unpack}
use sockstats.Tcpinfo.Linux.Versions.{Cells}
use sockstats.Tcpinfo.Typed.{kind_of, lookup-kind_of}
use sockstats.Tcpinfo.Windows.Unpack.{unpack_v1}
use sockstats.Tests.Samples.{packed}
use sockstats.Tcpinfo.Names.{name_of}
use sockstats.Tcpinfo.Windows.Get.{get_tcp_info}
use sockstats.Tcpinfo.Windows.Raw.{RawInfoV0, RawInfoV1}
use sockstats.Tcpinfo.Windows.SysInfo.{SysInfo}
use sockstats.Tcpinfo.Windows.Versions.{common, shared, get_tcp_info-versions}

abbrev filled : RawInfoV1
filled = record {
  state = 4;
  mss = 1460;
  connection_time_ms = 2500;
  timestamps_enabled = true;
  rtt_us = 12000;
  min_rtt_us = 11000;
  bytes_in_flight = 0;
  cwnd = 14600;
  snd_wnd = 65535;
  rcv_wnd = 65535;
  rcv_buf = 131072;
  bytes_out = 700;
  bytes_in = 9000;
  bytes_reordered = 0;
  bytes_retrans = 0;
  fast_retrans = 0;
  dup_acks_in = 0;
  timeout_episodes = 0;
  syn_retrans = 1;
  snd_lim_trans_rwin = 1;
  snd_lim_time_rwin = 2;
  snd_lim_bytes_rwin = 3;
  snd_lim_trans_cwnd = 4;
  snd_lim_time_cwnd = 5;
  snd_lim_bytes_cwnd = 6;
  snd_lim_trans_snd = 7;
  snd_lim_time_snd = 8;
  snd_lim_bytes_snd = 9;
}

abbrev not_known : Result Text RawInfoV0
not_known = err (codes "not known")

get_tcp_info-versions_example :
    (new : SysInfo) × (old : SysInfo) × (get_tcp_info (ok filled) not_known ≡ ok new)
    × (get_tcp_info (err (codes "version")) (ok (common filled)) ≡ ok old)
    × (shared new ≡ shared old)
    × (old.connected_time_ns ≡ pos 2500000000)
    × (new.connected_time_ns ≡ pos 2500000)
get_tcp_info-versions_example =
    get_tcp_info-versions filled not_known (codes "version") (omega arith)

abbrev mac : RawInfo
mac = record {
  state = 4;
  send_wscale = 6;
  recv_wscale = 5;
  options = 7;
  flags = 3;
  rto = 230;
  max_seg = 1448;
  send_ss_thresh = 1073725440;
  send_cwnd = 14480;
  send_wnd = 131712;
  send_sb_bytes = 0;
  recv_wnd = 131712;
  rtt_cur = 20;
  srtt = 21;
  rtt_var = 3;
  tfo_flags = 0;
  tx_packets = 12;
  tx_bytes = 1500;
  tx_retransmit_bytes = 0;
  rx_packets = 11;
  rx_bytes = 4200;
  rx_out_of_order_bytes = 0;
  tx_retransmit_packets = 0;
}

mac_flags : (Darwin.unpack mac).flags ≡ "LOSS_RECOVERY,REORDERING_DETECTED"
unfolding Darwin.unpack Darwin.tcp_info_tcp_flags_string Darwin.flag_names Darwin.join name_of
mac_flags = refl

rtt_held :
    lookup "rttCur" (DarwinSysInfo.to_map (Darwin.unpack mac))
    ≡ some (int (Darwin.unpack mac).rtt_cur)
unfolding DarwinSysInfo.to_map lookup
rtt_held = refl

abbrev no_cells : Cells
no_cells i = false

-- The round-trip time in the map of that struct is a duration.
lookup-kind_of_example : fits (kind (int (Darwin.unpack mac).rtt_cur)) (kind_of "rttCur") ≡ true
lookup-kind_of_example =
    lookup-kind_of {S = DarwinSysInfo.SysInfo} DarwinSysInfo.to_map (unpack no_cells packed)
      (Darwin.unpack mac) (unpack_v1 filled) (to_info (Darwin.unpack mac)) "rttCur"
      (int (Darwin.unpack mac).rtt_cur) (inr (inl rtt_held))
