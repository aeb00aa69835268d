-- ===== src/Kernel/Release/Defs.antt =====
-- `ParseRelease`, `GetKernelVersion` and `CheckKernelVersion`.
use sockstats.Common.{ℕ, Bool, not, none, some, [], ◌++◌, ltb, Result, ok, err, if◌then◌else◌}
use sockstats.Common.Int.{ℤ, pos, ltb_ℤ}
use sockstats.Common.Text.{Text, codes}
use sockstats.Kernel.Scan.{scan_int, scan_literal, scan_string}
use sockstats.Kernel.Version.{VersionInfo, compare_kernel_version}

-- The variables that the first `Sscanf` sets, and how many it set.
pub record Numbers : Type 0 where
  pub parsed : ℕ
  pub kernel : ℤ
  pub major : ℤ
  pub partial : Text

abbrev pub numbers : ℕ → ℤ → ℤ → Text → Numbers
numbers n k m p = record { parsed = n; kernel = k; major = m; partial = p }

-- From the second %d on.
unfoldable pub scan_major : ℤ → Text → Numbers
scan_major k t = elim (scan_int t) [
  | none ↦ numbers 1 k (pos 0) []
  | some (m, t') ↦ elim (scan_string t') [ none ↦ numbers 2 k m [] | some p ↦ numbers 3 k m p ]
]

-- `fmt.Sscanf(release, "%d.%d%s", &kernel, &major, &partial)`
unfoldable pub scan_numbers : Text → Numbers
scan_numbers t = elim (scan_int t) [
  | none ↦ numbers 0 (pos 0) (pos 0) []
  | some (k, t') ↦ elim (scan_literal b'.' t') [
    | none ↦ numbers 1 k (pos 0) []
    | some t'' ↦ scan_major k t''
  ]
]

pub record Rest : Type 0 where
  pub parsed : ℕ
  pub minor : ℤ
  pub flavor : Text

-- `fmt.Sscanf(partial, ".%d%s", &minor, &flavor)`
unfoldable pub scan_rest : Text → Rest
scan_rest t = elim (scan_literal b'.' t) [
  | none ↦ record { parsed = 0; minor = pos 0; flavor = [] }
  | some t' ↦ elim (scan_int t') [
    | none ↦ record { parsed = 0; minor = pos 0; flavor = [] }
    | some (m, t'') ↦ elim (scan_string t'') [
      | none ↦ record { parsed = 1; minor = m; flavor = [] }
      | some f ↦ record { parsed = 2; minor = m; flavor = f }
    ]
  ]
]

unfoldable pub parse_release : Text → Result Text VersionInfo
parse_release release =
    let n = scan_numbers release in
    let r = scan_rest n.partial in
    if ltb n.parsed 2
    then err (codes "Can't parse kernel version " ++ release)
    else ok (record {
      kernel = n.kernel;
      major = n.major;
      minor = r.minor;
      flavor = if ltb r.parsed 1 then n.partial else r.flavor;
    })

-- `uname` either fails or gives the release, its bytes up to the first NUL.
unfoldable pub get_kernel_version : Result Text Text → Result Text VersionInfo
get_kernel_version (err e) = err e
get_kernel_version (ok release) = parse_release release

unfoldable pub check_kernel_version : Result Text Text → ℤ → ℤ → ℤ → Result Text Bool
check_kernel_version uname k major minor =
    let asked : VersionInfo = record { kernel = k; major = major; minor = minor; flavor = [] } in
    elim (get_kernel_version uname) [
      | err e ↦ err e
      | ok v ↦ ok (not (ltb_ℤ (compare_kernel_version v asked) (pos 0)))
    ]
