-- ===== src/Kernel/Version.antt =====
-- pkg/kernel/kernel.go: `VersionInfo`, its print and `CompareKernelVersion`. An `int` is an
-- integer; `IsInt64` states the range of a 64-bit platform where a theorem needs it.
pub mod Order
use sockstats.Common.{◌++◌, ◌∷◌, if◌then◌else◌}
use sockstats.Common.Int.{ℤ, pos, negsuc, ltb_ℤ}
use sockstats.Common.Text.{Text, format_int}

pub record VersionInfo : Type 0 where
  pub kernel : ℤ
  pub major : ℤ
  pub minor : ℤ
  pub flavor : Text

-- `fmt.Sprintf("%d.%d.%d%s", …)`
unfoldable pub to_string : VersionInfo → Text
to_string k =
    format_int k.kernel
    ++ (b'.' ∷ (format_int k.major ++ (b'.' ∷ (format_int k.minor ++ k.flavor))))

unfoldable pub compare_kernel_version : VersionInfo → VersionInfo → ℤ
compare_kernel_version a b =
    if ltb_ℤ a.kernel b.kernel
    then negsuc 0
    else if ltb_ℤ b.kernel a.kernel
    then pos 1
    else if ltb_ℤ a.major b.major
    then negsuc 0
    else if ltb_ℤ b.major a.major
    then pos 1
    else if ltb_ℤ a.minor b.minor
    then negsuc 0
    else if ltb_ℤ b.minor a.minor
    then pos 1
    else pos 0
