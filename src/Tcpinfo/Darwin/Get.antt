-- ===== src/Tcpinfo/Darwin/Get.antt =====
-- pkg/tcpinfo/tcpinfo_darwin.go: `GetTCPInfo`. What getsockopt gives are its arguments.
use sockstats.Common.{ℕ, Bool, true, not, Result, ok, err, ◌==◌, if◌then◌else◌}
use sockstats.Tcpinfo.Darwin.Raw.{RawInfo}
use sockstats.Tcpinfo.Darwin.SysInfo.{SysInfo}
use sockstats.Tcpinfo.Darwin.Unpack.{unpack}

-- `GetTCPInfo`, from the errno of the call and the struct that it filled; EAGAIN, EINVAL and ENOENT
-- are returned as the package's own values of the same errno.
unfoldable pub get_tcp_info : ℕ → RawInfo → Result ℕ SysInfo
get_tcp_info errno value = if not (errno == 0) then err errno else ok (unpack value)

-- `Supported`
abbrev pub supported : Bool
supported = true
