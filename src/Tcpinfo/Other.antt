-- ===== src/Tcpinfo/Other.antt =====
-- pkg/tcpinfo/tcpinfo_other.go: the package where it is not supported. `goos` is `runtime.GOOS`.
use sockstats.Common.Int.{pos}
use sockstats.Common.Text.{Text, codes}
use sockstats.Common.{Bool, false, none, List, [], ◌++◌, Result, err}
use sockstats.Tcpinfo.AnyMap.{Fields, end}
use sockstats.Tcpinfo.Info.{Info}

-- A struct without fields.
pub record SysInfo : Type 0 where

unfoldable pub to_info : SysInfo → Info SysInfo
to_info s = record {
  state = "";
  tx_options = [];
  rx_options = [];
  tx_mss = 0;
  rx_mss = 0;
  rtt = pos 0;
  rtt_var = pos 0;
  rto = pos 0;
  ato = pos 0;
  last_tx_at = pos 0;
  last_rx_at = pos 0;
  last_tx_ack_at = pos 0;
  last_rx_ack_at = pos 0;
  rx_window = 0;
  tx_ss_threshold = 0;
  rx_ss_threshold = 0;
  tx_window_bytes = 0;
  tx_window_segs = 0;
  retransmits = 0;
  sys = none;
}

unfoldable pub warnings : SysInfo → List Text
warnings s = []

unfoldable pub to_map : SysInfo → Fields
to_map s = end

unfoldable pub get_tcp_info : Text → Result Text SysInfo
get_tcp_info goos = err (goos ++ codes " is unsupported")

unfoldable pub supported : Bool
supported = false
