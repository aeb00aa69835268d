-- ===== src/Tests/Tcpinfo.antt =====
-- pkg/tcpinfo on a concrete socket and concrete kernels.
use sockstats.Common.{
  ◌≡◌, refl, true, false, ◌&&◌, ◌||◌, none, some, All, arith, ltb, ◌==◌, if◌then◌else◌, ok,
}
use sockstats.Kernel.Version.{VersionInfo, compare_kernel_version}
use sockstats.Tcpinfo.AnyMap.{lookup}
use sockstats.Tcpinfo.Linux.Covered.{InGap, unpack-covered}
use sockstats.Tcpinfo.Linux.Get.Outcome.{Families, get_tcp_info-is_some, get_tcp_info-Families}
use sockstats.Tcpinfo.Linux.Get.{
  get_tcp_info, get_raw_tcp_info, get_with_raw, get_tcp_congestion_algorithm, get_cc, unpack_cc,
  plain_info, is_some, supported,
}
use sockstats.Tcpinfo.Linux.Layout.{IsEarly, versioned_fields, unpack-valid}
use sockstats.Tcpinfo.Linux.Reported.{reported_fields, lookup-to_map-unpack}
use sockstats.Tcpinfo.Linux.SysInfo.{SysInfo}
use sockstats.Tcpinfo.Linux.ToMap.Keys.{nullable_fields, lookup-to_map}
use sockstats.Tcpinfo.Linux.ToMap.{to_map}
use sockstats.Tcpinfo.Linux.Unpack.Options.{unpack-options}
use sockstats.Tcpinfo.Options.{set_options}
use sockstats.Tcpinfo.Linux.Unpack.Values.{TimesFit}
use sockstats.Tcpinfo.Linux.Unpack.{linux_options, tcp_options, unpack}
use sockstats.Tcpinfo.Linux.Versions.{
  Cells, Globals, adapt_from, initial, at_least, adapt_to_kernel_version,
}
use sockstats.Tests.Samples.{jammy, packed, with_bbr, bbr_values, told}

abbrev globals : Globals
globals = adapt_to_kernel_version (told jammy) initial

abbrev all_cells : Cells
all_cells i = true

size_jammy : globals.size_of_raw_tcp_info ≡ 232
unfolding adapt_to_kernel_version adapt_from compare_kernel_version
size_jammy = refl

jammy-late : ¬ IsEarly jammy
unfolding compare_kernel_version
jammy-late = ground arith

unpack-valid_example :
    All (λ f. f.valid (unpack globals.cells packed) ≡ at_least jammy f.needs) versioned_fields
unpack-valid_example = unpack-valid (told jammy) initial packed jammy-late

lookup-to_map-unpack_example :
    All
      (λ f.
        lookup f.key (to_map (unpack globals.cells packed))
        ≡ (if at_least jammy f.needs then some (f.value packed) else none))
      reported_fields
lookup-to_map-unpack_example = lookup-to_map-unpack (told jammy) initial packed jammy-late

jammy-outside : ¬ InGap jammy
unfolding compare_kernel_version
jammy-outside = ground arith

unpack-covered_example :
    All
      (λ f.
        (f.valid (unpack globals.cells packed) && ltb globals.size_of_raw_tcp_info f.last) ≡ false)
      versioned_fields
unpack-covered_example = unpack-covered (told jammy) initial packed jammy-outside

unpack-options_example :
    ((unpack all_cells packed).tx_options ≡ set_options linux_options 23 64256 tcp_options)
    × ((unpack all_cells packed).rx_options ≡ set_options linux_options 23 65536 tcp_options)
unpack-options_example = unpack-options all_cells packed

get_tcp_info-is_some_example :
    (is_some (get_tcp_info all_cells with_bbr).0 ≡ (supported all_cells && 0 == 0))
    × ((is_some (get_tcp_info all_cells with_bbr).0 || is_some (get_tcp_info all_cells with_bbr).1)
        ≡ true)
get_tcp_info-is_some_example = get_tcp_info-is_some all_cells with_bbr

packed-TimesFit : TimesFit packed
packed-TimesFit = record {
  rto_fits = ground arith;
  ato_fits = ground arith;
  rtt_fits = ground arith;
  rttvar_fits = ground arith;
  last_data_sent_fits = ground arith;
  last_data_recv_fits = ground arith;
  last_ack_sent_fits = ground arith;
  last_ack_recv_fits = ground arith;
  rcv_rtt_fits = ground arith;
}

abbrev unpacked : SysInfo
unpacked = unpack all_cells packed

lookup-to_map_example : All (λ f. lookup f.key (to_map unpacked) ≡ f.holds unpacked) nullable_fields
lookup-to_map_example = lookup-to_map unpacked

abbrev bbr_info : SysInfo
bbr_info =
    unpack_cc all_cells (record (plain_info packed) { cc_alg = "bbr"; cc_bbr = some bbr_values })

get_bbr : get_tcp_info all_cells with_bbr ≡ (some bbr_info, none)
unfolding get_tcp_info get_raw_tcp_info get_with_raw get_tcp_congestion_algorithm get_cc
get_bbr = refl

get_tcp_info-Families_example :
    (with_bbr.congestion ≡ ok bbr_info.cc_algorithm) × Families bbr_info bbr_info.cc_algorithm
get_tcp_info-Families_example = get_tcp_info-Families all_cells with_bbr bbr_info get_bbr

abbrev globals_of : VersionInfo → Globals
globals_of v = adapt_to_kernel_version (told v) initial
