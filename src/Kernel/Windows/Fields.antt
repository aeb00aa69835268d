-- ===== src/Kernel/Windows/Fields.antt =====
-- The version word of a Windows kernel, and the one that pkg/osversion puts together.
use Prim.Native.Nat.{bit_and, bit_or}
use sockstats.Common.Bits.{bit_and-low_8, bit_and-next_8, bit_and-high_16, bit_or-above}
use sockstats.Common.Text.{Text}
use sockstats.Common.{ℕ, ◌+◌, ◌*◌, ◌/◌, ◌%◌, ◌<◌, ◌≡◌, ◌∙◌, none, ok, arith}
use sockstats.Kernel.Windows.{VersionInfo, get_kernel_version, set_version, unknown}
use sockstats.Osversion.{OsVersion, get}

joined :
    (major minor build : ℕ)
    → major < 256
    → minor < 256
    → bit_or (bit_or (build * 65536) (minor * 256)) major ≡ build * 65536 + minor * 256 + major
joined major minor build a b = (λ i. bit_or (inner i) major) ∙ outer
  where
    inner : bit_or (build * 65536) (minor * 256) ≡ (build * 256 + minor) * 256
    inner =
        omega
          (arith, bit_or-above 16 build (minor * 256) (build * 65536) (omega arith) (omega arith))

    outer : bit_or ((build * 256 + minor) * 256) major ≡ build * 65536 + minor * 256 + major
    outer = omega (
      arith,
      bit_or-above 8 (build * 256 + minor) major ((build * 256 + minor) * 256) (omega arith) a,
    )

get_version :
    (major minor build : ℕ)
    → major < 256
    → minor < 256
    → build < 65536
    → (get major minor build).version ≡ build * 65536 + minor * 256 + major
unfolding get
get_version major minor build a b c =
    (λ i. bit_or (bit_or (high i) (low i)) major) ∙ joined major minor build a b
  where
    high : build * 65536 % 4294967296 ≡ build * 65536
    high = omega arith

    low : minor * 256 % 4294967296 ≡ minor * 256
    low = omega arith

set_version-fields :
    (w major minor build : ℕ) (kvi : VersionInfo)
    → major < 256
    → minor < 256
    → build < 65536
    → w ≡ build * 65536 + minor * 256 + major
    → set_version w kvi ≡ record kvi { major = major; minor = minor; build = build }
set_version-fields w major minor build kvi a b c e =
    λ i. record kvi { major = low i; minor = next i; build = high i }
  where
    low : bit_and w 255 ≡ major
    low = bit_and-low_8 w ∙ omega arith

    next : bit_and w 65280 / 256 ≡ minor
    next = bit_and-next_8 w ∙ omega arith

    high : bit_and w 4294901760 / 65536 ≡ build
    high = bit_and-high_16 w ∙ omega arith

-- On a system whose major and minor version fit in 8 bits and whose build fits in 16, the two
-- packages agree: if the system's version word is the one that `osversion.Get` puts together, then
-- `GetKernelVersion` returns, without an error, the text of the registry with the major version,
-- the minor version and the build that `osversion.Get` has.
pub get_kernel_version-get :
    (major minor build : ℕ) (blex : Text)
    → major < 256
    → minor < 256
    → build < 65536
    → let v = get major minor build in
      get_kernel_version (ok (ok blex)) (ok v.version) ≡ (
        record { kvi = blex; major = v.major_version; minor = v.minor_version; build = v.build },
        none,
      )
unfolding get_kernel_version get
get_kernel_version-get major minor build blex a b c = λ i. (
  set_version-fields v.version v.major_version v.minor_version v.build read_text (omega arith)
      (omega arith) (omega arith) word i,
  none,
)
  where
    v : OsVersion
    v = get major minor build

    read_text : VersionInfo
    read_text = record unknown { kvi = blex }

    word : v.version ≡ v.build * 65536 + v.minor_version * 256 + v.major_version
    word = omega (arith, get_version major minor build a b c)
