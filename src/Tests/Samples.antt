-- ===== src/Tests/Samples.antt =====
-- Inputs that the tests share.
use sockstats.Common.Int.{pos}
use sockstats.Common.Text.{Text, codes}
use sockstats.Common.{[], Result, ok, err}
use sockstats.Kernel.Version.{VersionInfo}
use sockstats.Tcpinfo.Linux.Get.{Sockopts, BbrInfo, errno}
use sockstats.Tcpinfo.Linux.Raw.{RawTcpInfo}

-- Ubuntu's kernel 5.15.
abbrev pub jammy : VersionInfo
jammy = record { kernel = pos 5; major = pos 15; minor = pos 0; flavor = codes "-91-generic" }

abbrev pub xenial : VersionInfo
xenial = record { kernel = pos 4; major = pos 9; minor = pos 0; flavor = codes "-rc1" }

abbrev pub bookworm : VersionInfo
bookworm = record { kernel = pos 6; major = pos 5; minor = pos 3; flavor = [] }

abbrev pub told : VersionInfo → Result Text VersionInfo
told v = ok v

abbrev pub packed : RawTcpInfo
packed = record {
  state = 1;
  ca_state = 8;
  retransmits = 15;
  probes = 22;
  backoff = 29;
  options = 23;
  bitfield0 = 135;
  bitfield1 = 1;
  rto = 57;
  ato = 64;
  snd_mss = 71;
  rcv_mss = 78;
  unacked = 85;
  sacked = 92;
  lost = 99;
  retrans = 106;
  fackets = 113;
  last_data_sent = 120;
  last_ack_sent = 127;
  last_data_recv = 134;
  last_ack_recv = 141;
  pmtu = 148;
  rcv_ssthresh = 155;
  rtt = 162;
  rttvar = 169;
  snd_ssthresh = 176;
  snd_cwnd = 183;
  advmss = 190;
  reordering = 197;
  rcv_rtt = 4;
  rcv_space = 11;
  total_retrans = 18;
  pacing_rate = 25;
  max_pacing_rate = 32;
  bytes_acked = 39;
  bytes_received = 46;
  segs_out = 53;
  segs_in = 60;
  notsent_bytes = 67;
  min_rtt = 1500;
  data_segs_in = 81;
  data_segs_out = 88;
  delivery_rate = 95;
  busy_time = 102;
  rwnd_limited = 109;
  sndbuf_limited = 116;
  delivered = 123;
  delivered_ce = 130;
  bytes_sent = 137;
  bytes_retrans = 144;
  dsack_dups = 151;
  reord_seen = 158;
  rcv_ooopack = 165;
  snd_wnd = 64256;
  rcv_wnd = 65536;
  rehash = 186;
  total_rto = 193;
  total_rto_recoveries = 200;
  total_rto_time = 7;
}

abbrev pub bbr_values : BbrInfo
bbr_values = record { bw_lo = 12; bw_hi = 0; min_rtt = 250; pacing_gain = 739; cwnd_gain = 512 }

-- A socket under BBR.
abbrev pub with_bbr : Sockopts
with_bbr = record {
  raw_errno = 0;
  raw = packed;
  congestion = ok "bbr";
  vegas = err (errno 22);
  bbr = ok bbr_values;
  dctcp = err (errno 22);
}

-- A socket for which TCP_INFO fails with EINVAL.
abbrev pub refused : Sockopts
refused = record with_bbr { raw_errno = 22 }
