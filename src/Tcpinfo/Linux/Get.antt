-- ===== src/Tcpinfo/Linux/Get.antt =====
-- pkg/tcpinfo/tcpinfo_linux.go: `GetTCPInfo` and the congestion-control data. The socket options
-- are the kernel's: what each system call returns is a field of `Sockopts`.
pub mod Outcome
use Prim.Native.String.{String}
use text.Mathlib.Text.{◌==◌ as str_eq}
use sockstats.Common.Int.{pos}
use sockstats.Common.{
  ℕ, Bool, true, false, not, Option, none, some, Result, ok, err, ◌==◌, if◌then◌else◌,
}
use sockstats.Tcpinfo.Linux.Raw.{RawTcpInfo}
use sockstats.Tcpinfo.Linux.SysInfo.{Nullable, SysInfo}
use sockstats.Tcpinfo.Linux.Unpack.{micros, unpack}
use sockstats.Tcpinfo.Linux.Versions.{Cells, at_least_2_6_2}

-- An errno of a system call, or `ErrKernelTooOld`.
pub data Error : Type 0 where
  errno : ℕ → Error
  kernel_too_old : Error

-- The fields that are read of unix.TCPVegasInfo, TCPBBRInfo and TCPDCTCPInfo.
pub record VegasInfo : Type 0 where
  pub enabled : ℕ
  pub rttcnt : ℕ
  pub rtt : ℕ
  pub minrtt : ℕ

pub record BbrInfo : Type 0 where
  pub bw_lo : ℕ
  pub bw_hi : ℕ
  pub min_rtt : ℕ
  pub pacing_gain : ℕ
  pub cwnd_gain : ℕ

pub record DctcpInfo : Type 0 where
  pub enabled : ℕ
  pub ce_state : ℕ
  pub alpha : ℕ
  pub ab_ecn : ℕ
  pub ab_tot : ℕ

-- What the kernel answers for one socket: the errno of TCP_INFO and the struct it wrote, the name of
-- TCP_CONGESTION, and the three forms of TCP_CC_INFO.
pub record Sockopts : Type 0 where
  pub raw_errno : ℕ
  pub raw : RawTcpInfo
  pub congestion : Result Error String
  pub vegas : Result Error VegasInfo
  pub bbr : Result Error BbrInfo
  pub dctcp : Result Error DctcpInfo

-- `GetRawTCPInfo`; EAGAIN, EINVAL and ENOENT are returned as the package's own values of the same
-- errno.
unfoldable pub get_raw_tcp_info : Sockopts → Result Error RawTcpInfo
get_raw_tcp_info k = if not (k.raw_errno == 0) then err (errno k.raw_errno) else ok k.raw

-- `GetTCPCongestionAlgorithm`
unfoldable pub get_tcp_congestion_algorithm : Sockopts → Result Error String
get_tcp_congestion_algorithm k = k.congestion

pub record TcpInfoPlusCc : Type 0 where
  pub tcp_info : RawTcpInfo
  pub cc_alg : String
  pub cc_vegas : Option VegasInfo
  pub cc_bbr : Option BbrInfo
  pub cc_dctp : Option DctcpInfo

abbrev pub is_some {ℓ} : {A : Type ℓ} → Option A → Bool
is_some none = false
is_some (some _) = true

abbrev valid_with : {A : Type 0} → A → Nullable A
valid_with x = record { valid = true; value = x }

unfoldable pub with_vegas : VegasInfo → SysInfo → SysInfo
with_vegas v s = record s {
  cc_vegas_enabled = valid_with v.enabled;
  cc_vegas_rtt_cnt = valid_with v.rttcnt;
  cc_vegas_rtt_min = valid_with (micros v.minrtt);
  cc_vegas_rtt = valid_with (micros v.rtt);
}

unfoldable pub with_bbr : BbrInfo → SysInfo → SysInfo
with_bbr b s = record s {
  cc_bbr_bw_hi = valid_with b.bw_hi;
  cc_bbr_bw_lo = valid_with b.bw_lo;
  cc_bbr_min_rtt = valid_with (micros b.min_rtt);
  cc_bbr_pacing_gain = valid_with b.pacing_gain;
  cc_bbr_c_window_gain = valid_with b.cwnd_gain;
}

unfoldable pub with_dctcp : DctcpInfo → SysInfo → SysInfo
with_dctcp d s = record s {
  cc_dctcp_enabled = valid_with (not (d.enabled == 0));
  cc_dctcp_ce_state = valid_with d.ce_state;
  cc_dctcp_alpha = valid_with d.alpha;
  cc_dctcp_ab_ecn = valid_with d.ab_ecn;
  cc_dctcp_ab_tot = valid_with d.ab_tot;
}

-- One test `t.CCAlg == name && t.CC… != nil` with the statements under it, and what comes after.
abbrev when_alg : {A : Type 0} → Bool → Option A → (A → SysInfo) → SysInfo → SysInfo
when_alg b none f s = s
when_alg b (some x) f s = if b then f x else s

-- `(*TCPInfoPlusCC).Unpack`
unfoldable pub unpack_cc : Cells → TcpInfoPlusCc → SysInfo
unfolding with_vegas with_bbr with_dctcp
unpack_cc at t =
    let s = record (unpack at t.tcp_info) { cc_algorithm = t.cc_alg } in
    when_alg (str_eq t.cc_alg "vegas") t.cc_vegas (λ v. with_vegas v s)
      (when_alg (str_eq t.cc_alg "bbr") t.cc_bbr (λ b. with_bbr b s)
        (when_alg (str_eq t.cc_alg "dctcp") t.cc_dctp (λ d. with_dctcp d s) s))

-- A Go result `(*SysInfo, error)`: here both parts may be set.
abbrev pub Both : Type 0
Both = Option SysInfo × Option Error

-- `v, err := …; if err != nil { return res.Unpack(), err }; res.CC… = v`, then the last return.
abbrev finish : {A : Type 0} → Cells → TcpInfoPlusCc → (A → TcpInfoPlusCc) → Result Error A → Both
finish at t f (ok v) = (some (unpack_cc at (f v)), none)
finish at t f (err e) = (some (unpack_cc at t), some e)

-- The `switch alg`, and the return behind it.
unfoldable pub get_cc : Cells → Sockopts → TcpInfoPlusCc → String → Both
get_cc at k t alg =
    if str_eq alg "vegas"
    then finish at t (λ v. record t { cc_vegas = some v }) k.vegas
    else if str_eq alg "bbr"
    then finish at t (λ v. record t { cc_bbr = some v }) k.bbr
    else if str_eq alg "dctcp"
    then finish at t (λ v. record t { cc_dctp = some v }) k.dctcp
    else (some (unpack_cc at t), none)

abbrev pub plain_info : RawTcpInfo → TcpInfoPlusCc
plain_info raw = record {
  tcp_info = raw;
  cc_alg = "";
  cc_vegas = none;
  cc_bbr = none;
  cc_dctp = none;
}

-- From the congestion algorithm on.
unfoldable pub get_with_raw : Cells → Sockopts → RawTcpInfo → Both
get_with_raw at k raw = elim (get_tcp_congestion_algorithm k) [
  | err e ↦ (some (unpack_cc at (plain_info raw)), some e)
  | ok alg ↦ get_cc at k (record (plain_info raw) { cc_alg = alg }) alg
]

-- `GetTCPInfo`
unfoldable pub get_tcp_info : Cells → Sockopts → Both
get_tcp_info at k =
    if not (at at_least_2_6_2)
    then (none, some kernel_too_old)
    else elim (get_raw_tcp_info k) [ err e ↦ (none, some e) | ok raw ↦ get_with_raw at k raw ]

-- `Supported`
unfoldable pub supported : Cells → Bool
supported at = at at_least_2_6_2
