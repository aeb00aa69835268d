-- ===== src/Kernel/Windows.antt =====
-- pkg/kernel/kernel_windows.go: the version of a Windows kernel. What the registry and the system
-- answer is an argument, an error as its text.
pub mod Fields
use Prim.Native.Nat.{bit_and}
use sockstats.Common.Text.{Text, codes, format_uint}
use sockstats.Common.{ℕ, ◌/◌, ◌^◌, Option, none, some, ◌∷◌, [], ◌++◌, Result, ok, err}

-- The three numbers are `int` and never negative.
pub record VersionInfo : Type 0 where
  pub kvi : Text
  pub major : ℕ
  pub minor : ℕ
  pub build : ℕ

-- `(*VersionInfo).String`
unfoldable pub to_string : VersionInfo → Text
to_string k =
    format_uint k.major
    ++ (b'.'
        ∷ (format_uint k.minor
            ++ (b' ' ∷ (format_uint k.build ++ (codes " (" ++ (k.kvi ++ (b')' ∷ [])))))))

abbrev pub unknown : VersionInfo
unknown = record { kvi = codes "Unknown"; major = 0; minor = 0; build = 0 }

-- The fields of a version word, which is a uint32.
abbrev pub set_version : ℕ → VersionInfo → VersionInfo
set_version dw_version kvi = record kvi {
  major = bit_and dw_version 0xff;
  minor = bit_and dw_version 0xff00 / 2 ^ 8;
  build = bit_and dw_version 0xffff0000 / 2 ^ 16;
}

abbrev pub with_version : Result Text ℕ → VersionInfo → VersionInfo × Option Text
with_version (err e) kvi = (kvi, some e)
with_version (ok dw_version) kvi = (set_version dw_version kvi, none)

abbrev pub with_build_lab : Result Text Text → Result Text ℕ → VersionInfo × Option Text
with_build_lab (err e) version = (unknown, some e)
with_build_lab (ok blex) version = with_version version (record unknown { kvi = blex })

-- `GetKernelVersion`: the opened key, with its answer for BuildLabEx, and the version word. It
-- returns the record as far as it is filled in, and the error.
unfoldable pub get_kernel_version :
    Result Text (Result Text Text) → Result Text ℕ → VersionInfo × Option Text
get_kernel_version (err e) version = (unknown, some e)
get_kernel_version (ok key) version = with_build_lab key version
