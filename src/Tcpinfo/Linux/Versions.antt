-- ===== src/Tcpinfo/Linux/Versions.antt =====
-- pkg/tcpinfo/init_linux.go: the table of struct sizes by kernel version and `init`. The package
-- variables `kernelVersionIsAtLeast_…` are thirteen Boolean cells, and the pointer `Flag` of a
-- table row is the number of its cell.
pub mod Flags
use sockstats.Common.{
  ℕ, Bool, true, false, not, List, [], ◌∷◌, Result, ok, err, ◌==◌, if◌then◌else◌,
}
use sockstats.Common.Int.{ℤ, pos, ltb_ℤ}
use sockstats.Common.Text.{Text}
use sockstats.Kernel.Version.{VersionInfo, compare_kernel_version}

abbrev pub Cells : Type 0
Cells = ℕ → Bool

abbrev pub at_least_2_6_2 : ℕ
at_least_2_6_2 = 0

abbrev pub at_least_3_15 : ℕ
at_least_3_15 = 1

abbrev pub at_least_4_1 : ℕ
at_least_4_1 = 2

abbrev pub at_least_4_2 : ℕ
at_least_4_2 = 3

abbrev pub at_least_4_6 : ℕ
at_least_4_6 = 4

abbrev pub at_least_4_9 : ℕ
at_least_4_9 = 5

abbrev pub at_least_4_10 : ℕ
at_least_4_10 = 6

abbrev pub at_least_4_18 : ℕ
at_least_4_18 = 7

abbrev pub at_least_4_19 : ℕ
at_least_4_19 = 8

abbrev pub at_least_5_4 : ℕ
at_least_5_4 = 9

abbrev pub at_least_5_5 : ℕ
at_least_5_5 = 10

abbrev pub at_least_6_2 : ℕ
at_least_6_2 = 11

abbrev pub at_least_6_7 : ℕ
at_least_6_7 = 12

pub record VersionedStructSize : Type 0 where
  pub version : VersionInfo
  pub size : ℕ
  pub cell : ℕ

abbrev pub version : ℕ → ℕ → ℕ → VersionInfo
version k m n = record { kernel = pos k; major = pos m; minor = pos n; flavor = [] }

abbrev row : VersionInfo → ℕ → ℕ → VersionedStructSize
row v n c = record { version = v; size = n; cell = c }

-- `tcpInfoSizes` from its last row to its first, the order in which `init` walks it.
abbrev pub tcp_info_sizes : List VersionedStructSize
tcp_info_sizes =
    row (version 6 7 0) 248 at_least_6_7
    ∷ row (version 6 2 0) 240 at_least_6_2
    ∷ row (version 5 5 0) 232 at_least_5_5
    ∷ row (version 5 4 0) 232 at_least_5_4
    ∷ row (version 4 19 0) 224 at_least_4_19
    ∷ row (version 4 18 0) 200 at_least_4_18
    ∷ row (version 4 10 0) 192 at_least_4_10
    ∷ row (version 4 9 0) 148 at_least_4_9
    ∷ row (version 4 6 0) 160 at_least_4_6
    ∷ row (version 4 2 0) 144 at_least_4_2
    ∷ row (version 4 1 0) 136 at_least_4_1
    ∷ row (version 3 15 0) 120 at_least_3_15
    ∷ row (version 2 6 2) 104 at_least_2_6_2
    ∷ []

-- The package variables that `adaptToKernelVersion` writes.
pub record Globals : Type 0 where
  pub size_of_raw_tcp_info : ℕ
  pub cells : Cells

abbrev pub write : ℕ → Bool → Cells → Cells
write c b s i = if i == c then b else s i

-- `kernel.CompareKernelVersion(v, w) >= 0`
abbrev pub at_least : VersionInfo → VersionInfo → Bool
at_least v w = not (ltb_ℤ (compare_kernel_version v w) (pos 0))

-- `for j := i; j >= 0; j--`: the row found and all rows below it.
unfoldable pub set_flags : List VersionedStructSize → Cells → Cells
set_flags [] s = s
set_flags (e ∷ below) s = set_flags below (write e.cell true s)

-- `for i := len(tcpInfoSizes) - 1; i >= 0; i--`
unfoldable pub adapt_from : VersionInfo → List VersionedStructSize → Globals → Globals
adapt_from v [] g = g
adapt_from v (e ∷ below) g =
    let rest = adapt_from v below (record g { cells = write e.cell false g.cells }) in
    if at_least v e.version
    then record { size_of_raw_tcp_info = e.size; cells = set_flags (e ∷ below) g.cells }
    else rest

-- The version that is used: 2.6.2 where the kernel's cannot be had.
abbrev pub effective_version : Result Text VersionInfo → VersionInfo
effective_version (ok v) = v
effective_version (err _) = version 2 6 2

-- `adaptToKernelVersion`, on what `GetKernelVersion` returned.
unfoldable pub adapt_to_kernel_version : Result Text VersionInfo → Globals → Globals
adapt_to_kernel_version r = adapt_from (effective_version r) tcp_info_sizes

-- The variables before `init`.
abbrev pub initial : Globals
initial = record { size_of_raw_tcp_info = 0; cells = λ _. false }
