-- ===== src/Tcpinfo/Darwin/Values.antt =====
-- The durations that `Unpack` computes on Darwin, and what `ToInfo` takes from them.
use sockstats.Common.Int.{pos}
use sockstats.Common.{◌*◌, ◌^◌, ◌<◌, ◌≡◌, arith}
use sockstats.Tcpinfo.Darwin.Raw.{RawInfo}
use sockstats.Tcpinfo.Darwin.ToInfo.{to_info}
use sockstats.Tcpinfo.Darwin.Unpack.{unpack}
use sockstats.Tcpinfo.Duration.{duration-exact}

-- Where the three times of the kernel's struct are below 2 ^ 32, as a uint32 is, the summary that
-- `ToInfo` makes on Darwin holds the smoothed round-trip time, its variance and the retransmission
-- timeout as exactly 1000000 nanoseconds for each millisecond of the kernel's.
pub to_info-times :
    (packed : RawInfo)
    → packed.srtt < 2 ^ 32
    → packed.rtt_var < 2 ^ 32
    → packed.rto < 2 ^ 32
    → let info = to_info (unpack packed) in
      (info.rtt ≡ pos (packed.srtt * 1000000))
      × (info.rtt_var ≡ pos (packed.rtt_var * 1000000))
      × (info.rto ≡ pos (packed.rto * 1000000))
unfolding unpack to_info
to_info-times packed srtt rtt_var rto = (
  duration-exact 1000000 packed.srtt (omega (arith, srtt)) (omega (arith, srtt)),
  duration-exact 1000000 packed.rtt_var (omega (arith, rtt_var)) (omega (arith, rtt_var)),
  duration-exact 1000000 packed.rto (omega (arith, rto)) (omega (arith, rto)),
)
