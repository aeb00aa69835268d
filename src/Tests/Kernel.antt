-- ===== src/Tests/Kernel.antt =====
-- pkg/kernel/kernel.go on concrete releases.
use sockstats.Common.Int.{pos, negsuc, ◌≤ℤ◌}
use sockstats.Common.Text.{codes}
use sockstats.Common.{◌≡◌, refl, ◌↔◌, ok, err, arith}
use sockstats.Kernel.Release.RoundTrip.{IsPrintable, parse_release-to_string}
use sockstats.Kernel.Release.{parse_release, scan_major, scan_numbers, scan_rest}
use sockstats.Kernel.Scan.{is_space, scan_int, scan_literal, scan_string}
use sockstats.Kernel.Version.Order.{Before, SameNumbers, compare_kernel_version-Before}
use sockstats.Kernel.Version.{compare_kernel_version, to_string}
use sockstats.Tests.Samples.{jammy, xenial, bookworm}

parse_jammy : parse_release (codes "5.15.0-91-generic") ≡ ok jammy
unfolding parse_release scan_numbers scan_major scan_rest scan_int scan_literal scan_string
parse_jammy = refl

-- Without a third number, what follows the second is the flavor.
parse_short :
    parse_release (codes "3.10-rc1")
    ≡ ok (record { kernel = pos 3; major = pos 10; minor = pos 0; flavor = codes "-rc1" })
unfolding parse_release scan_numbers scan_major scan_rest scan_int scan_literal scan_string
parse_short = refl

parse_none : parse_release (codes "linux") ≡ err (codes "Can't parse kernel version linux")
unfolding parse_release scan_numbers scan_major scan_rest scan_int scan_literal scan_string
parse_none = refl

jammy-IsPrintable : IsPrintable jammy
unfolding is_space
jammy-IsPrintable = record {
  kernel_in = ground arith;
  major_in = ground arith;
  minor_in = ground arith;
  flavor_word = ground arith;
  flavor_start = ground arith;
}

compare_kernel_version-Before_example :
    ((compare_kernel_version xenial jammy ≡ negsuc 0) ↔ Before xenial jammy)
    × ((compare_kernel_version xenial jammy ≡ pos 1) ↔ Before jammy xenial)
    × ((compare_kernel_version xenial jammy ≡ pos 0) ↔ SameNumbers xenial jammy)
compare_kernel_version-Before_example = compare_kernel_version-Before xenial jammy

later_of :
    (pos 0 ≤ℤ compare_kernel_version bookworm jammy)
    × (pos 0 ≤ℤ compare_kernel_version jammy xenial)
unfolding compare_kernel_version
later_of = ground arith

parse_release-to_string_example : parse_release (to_string jammy) ≡ ok jammy
parse_release-to_string_example = parse_release-to_string jammy jammy-IsPrintable
