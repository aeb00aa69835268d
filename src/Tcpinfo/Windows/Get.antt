-- ===== src/Tcpinfo/Windows/Get.antt =====
-- pkg/tcpinfo/tcpinfo_windows.go: `GetTCPInfo`. What `WSAIoctl` gives for the two versions of the
-- struct are its arguments.
use sockstats.Common.Text.{Text, codes}
use sockstats.Common.{Bool, true, ◌++◌, Result, ok, err}
use sockstats.Tcpinfo.Windows.Raw.{RawInfoV0, RawInfoV1}
use sockstats.Tcpinfo.Windows.SysInfo.{SysInfo}
use sockstats.Tcpinfo.Windows.Unpack.{unpack_v0, unpack_v1}

-- `GetTCPInfo`: the second call is made where the first fails.
unfoldable pub get_tcp_info : Result Text RawInfoV1 → Result Text RawInfoV0 → Result Text SysInfo
get_tcp_info (ok r) v0 = ok (unpack_v1 r)
get_tcp_info (err _) (ok r) = ok (unpack_v0 r)
get_tcp_info (err _) (err e) = err (codes "could not perform the WSAIoctl: " ++ e)

-- `Supported`
abbrev pub supported : Bool
supported = true
