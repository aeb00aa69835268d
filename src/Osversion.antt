-- ===== src/Osversion.antt =====
-- pkg/osversion: the version of Windows, and which containers a host can run.
pub mod Compat
pub mod Builds
pub mod Revision
use sockstats.Common.Text.{Text, format_uint}
use sockstats.Common.{
  ℕ, ◌+◌, ◌*◌, ◌%◌, ◌^◌, Bool, true, false, not, ◌&&◌, ◌||◌, List, [], ◌∷◌, ◌++◌, ltb, leb, ◌==◌,
  if◌then◌else◌,
}
use Prim.Native.Nat.{bit_or}

-- `version` is a uint32, `build` a uint16, the other two are uint8.
pub record OsVersion : Type 0 where
  pub version : ℕ
  pub major_version : ℕ
  pub minor_version : ℕ
  pub build : ℕ

-- What the first call of `Get` stores, from the three numbers of `RtlGetVersion`, which are uint32.
unfoldable pub get : ℕ → ℕ → ℕ → OsVersion
get major minor build_number = record {
  version = bit_or (bit_or (build_number * 2 ^ 16 % 2 ^ 32) (minor * 2 ^ 8 % 2 ^ 32)) major;
  major_version = major % 2 ^ 8;
  minor_version = minor % 2 ^ 8;
  build = build_number % 2 ^ 16;
}

-- `(OSVersion).String`
unfoldable pub to_string : OsVersion → Text
to_string v =
    format_uint v.major_version
    ++ (b'.' ∷ (format_uint v.minor_version ++ (b'.' ∷ format_uint v.build)))

abbrev pub ltsc_2022 : ℕ
ltsc_2022 = 20348

abbrev pub ltsc_2025 : ℕ
ltsc_2025 = 26100

-- `compatLTSCReleases` from its last item to its first, the order of the loop.
abbrev pub compat_ltsc_releases : List ℕ
compat_ltsc_releases = ltsc_2025 ∷ ltsc_2022 ∷ []

-- The loop that finds `supportedLTSCRelease`, and its value before the loop.
unfoldable pub supported_from : ℕ → List ℕ → ℕ
supported_from build [] = ltsc_2022
supported_from build (r ∷ rs) =
    let earlier = supported_from build rs in if ltb r build then r else earlier

unfoldable pub check_host_and_container_compat : OsVersion → OsVersion → Bool
check_host_and_container_compat host ctr =
    if not (host.major_version == ctr.major_version)
      || not (host.minor_version == ctr.minor_version)
    then false
    else if ltb host.build ltsc_2022
    then host.build == ctr.build
    else leb (supported_from host.build compat_ltsc_releases) ctr.build && leb ctr.build host.build
