-- ===== src/Conn/Platform.antt =====
-- wrap.go: what the wrapper uses of pkg/tcpinfo, as an interface, and its implementations on
-- Linux, Darwin, Windows and elsewhere.
use sockstats.Common.Text.{Text}
use sockstats.Common.{◌≡◌, refl, Bool, true, some, List}
use sockstats.Tcpinfo.AnyMap.{Fields}
use sockstats.Tcpinfo.Info.{Info}
use sockstats.Tcpinfo.Darwin.Get as DarwinGet
use sockstats.Tcpinfo.Darwin.SysInfo as Darwin
use sockstats.Tcpinfo.Darwin.ToInfo as DarwinToInfo
use sockstats.Tcpinfo.Linux.Get as Get
use sockstats.Tcpinfo.Linux.SysInfo as Linux
use sockstats.Tcpinfo.Linux.ToInfo as ToInfo
use sockstats.Tcpinfo.Linux.ToMap as ToMap
use sockstats.Tcpinfo.Linux.Versions.{Cells}
use sockstats.Tcpinfo.Other as Other
use sockstats.Tcpinfo.Windows.Get as WindowsGet
use sockstats.Tcpinfo.Windows.SysInfo as Windows
use sockstats.Tcpinfo.Windows.ToInfo as WindowsToInfo

-- The methods of `*SysInfo` on a pointer that is not nil, and `Supported`. The law says that on a
-- supported platform the `Info` points back at the `SysInfo` that it was made from.
pub record Platform : Type 1 where
  pub SysInfo : Type 0
  pub to_info : SysInfo → Info SysInfo
  pub to_map : SysInfo → Fields
  pub warnings : SysInfo → List Text
  pub supported : Bool
  pub to_info-sys : supported ≡ true → (s : SysInfo) → (to_info s).sys ≡ some s

pub linux-sys : (s : Linux.SysInfo) → (ToInfo.to_info s).sys ≡ some s
unfolding ToInfo.to_info
linux-sys s = refl

abbrev pub linux : Cells → Platform
linux at = record {
  SysInfo = Linux.SysInfo;
  to_info = ToInfo.to_info;
  to_map = ToMap.to_map;
  warnings = ToInfo.warnings;
  supported = Get.supported at;
  to_info-sys = λ _. linux-sys;
}

pub darwin-sys : (s : Darwin.SysInfo) → (DarwinToInfo.to_info s).sys ≡ some s
unfolding DarwinToInfo.to_info
darwin-sys s = refl

abbrev pub darwin : Platform
darwin = record {
  SysInfo = Darwin.SysInfo;
  to_info = DarwinToInfo.to_info;
  to_map = Darwin.to_map;
  warnings = DarwinToInfo.warnings;
  supported = DarwinGet.supported;
  to_info-sys = λ _. darwin-sys;
}

pub windows-sys : (s : Windows.SysInfo) → (WindowsToInfo.to_info s).sys ≡ some s
unfolding WindowsToInfo.to_info
windows-sys s = refl

abbrev pub windows : Platform
windows = record {
  SysInfo = Windows.SysInfo;
  to_info = WindowsToInfo.to_info;
  to_map = Windows.to_map;
  warnings = WindowsToInfo.warnings;
  supported = WindowsGet.supported;
  to_info-sys = λ _. windows-sys;
}

pub other-sys : Other.supported ≡ true → (s : Other.SysInfo) → (Other.to_info s).sys ≡ some s
unfolding Other.supported
other-sys h s = cc h

abbrev pub other : Platform
other = record {
  SysInfo = Other.SysInfo;
  to_info = Other.to_info;
  to_map = Other.to_map;
  warnings = Other.warnings;
  supported = Other.supported;
  to_info-sys = other-sys;
}
