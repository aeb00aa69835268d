-- ===== src/Tcpinfo/Windows/Versions.antt =====
-- How `Unpack` of the two versions of the Windows struct differ.
use sockstats.Common.Int.{pos}
use sockstats.Common.Text.{Text}
use sockstats.Common.{◌*◌, ◌^◌, ◌<◌, ◌≡◌, refl, arith, Result, ok, err}
use sockstats.Tcpinfo.Duration.{duration-exact}
use sockstats.Tcpinfo.Windows.Get.{get_tcp_info}
use sockstats.Tcpinfo.Windows.Raw.{RawInfoV0, RawInfoV1}
use sockstats.Tcpinfo.Windows.SysInfo.{SysInfo}
use sockstats.Tcpinfo.Windows.Unpack.{unpack_v0, unpack_v1}

-- The part of the newer struct that the older one has.
abbrev pub common : RawInfoV1 → RawInfoV0
common r = record {
  state = r.state;
  mss = r.mss;
  connection_time_ms = r.connection_time_ms;
  timestamps_enabled = r.timestamps_enabled;
  rtt_us = r.rtt_us;
  min_rtt_us = r.min_rtt_us;
  bytes_in_flight = r.bytes_in_flight;
  cwnd = r.cwnd;
  snd_wnd = r.snd_wnd;
  rcv_wnd = r.rcv_wnd;
  rcv_buf = r.rcv_buf;
  bytes_out = r.bytes_out;
  bytes_in = r.bytes_in;
  bytes_reordered = r.bytes_reordered;
  bytes_retrans = r.bytes_retrans;
  fast_retrans = r.fast_retrans;
  dup_acks_in = r.dup_acks_in;
  timeout_episodes = r.timeout_episodes;
  syn_retrans = r.syn_retrans;
}

-- A `SysInfo` without the limits, which only the newer struct reports, and the connected time.
abbrev pub shared : SysInfo → SysInfo
shared s = record s {
  connected_time_ns = pos 0;
  snd_lim_trans_rwin = 0;
  snd_lim_trans_time_rwin = pos 0;
  snd_lim_bytes_rwin = 0;
  snd_lim_trans_cwnd = 0;
  snd_lim_time_cwnd = pos 0;
  snd_lim_bytes_cwnd = 0;
  snd_lim_trans_snd = 0;
  snd_lim_time_snd = pos 0;
  snd_lim_bytes_snd = 0;
}

-- Whether Windows fills the newer struct or only the part of it that the older one has, the call
-- succeeds and everything but the limits and the connected time is reported alike. The connected
-- time, where it is below 2 ^ 43 milliseconds, is 1000000 times the count of milliseconds from the
-- older struct and only 1000 times the count from the newer one.
pub get_tcp_info-versions :
    (r : RawInfoV1) (v0 : Result Text RawInfoV0) (e : Text)
    → r.connection_time_ms < 2 ^ 43
    → (new : SysInfo) × (old : SysInfo) × (get_tcp_info (ok r) v0 ≡ ok new)
      × (get_tcp_info (err e) (ok (common r)) ≡ ok old)
      × (shared new ≡ shared old)
      × (old.connected_time_ns ≡ pos (r.connection_time_ms * 1000000))
      × (new.connected_time_ns ≡ pos (r.connection_time_ms * 1000))
unfolding get_tcp_info unpack_v0 unpack_v1
get_tcp_info-versions r v0 e h = (
  unpack_v1 r,
  unpack_v0 (common r),
  refl,
  refl,
  refl,
  duration-exact 1000000 r.connection_time_ms (omega (arith, h)) (omega (arith, h)),
  duration-exact 1000 r.connection_time_ms (omega (arith, h)) (omega (arith, h)),
)
