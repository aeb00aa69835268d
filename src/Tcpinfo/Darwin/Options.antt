-- ===== src/Tcpinfo/Darwin/Options.antt =====
-- The negotiated options that `Unpack` lists on Darwin.
use sockstats.Common.{◌≡◌, [], arith}
use sockstats.Tcpinfo.Darwin.Raw.{RawInfo}
use sockstats.Tcpinfo.Darwin.Unpack.{darwin_options, tcp_options, unpack}
use sockstats.Tcpinfo.Options.{Known, set_options, add_options-eq}

darwin_options-Known : Known darwin_options tcp_options
darwin_options-Known = ground arith

-- On Darwin, `Unpack` lists exactly the options whose bits are set in the options word, in the
-- order of the bits and under their names in `tcpOptionsMap`, in both lists. The value is 0 but for
-- the option "WindowScale", where it is the scale that the kernel sends with in the sent list and
-- the one that it receives with in the received list.
pub unpack-darwin_options :
    (packed : RawInfo)
    → ((unpack packed).tx_options
        ≡ set_options darwin_options packed.options packed.send_wscale tcp_options)
      × ((unpack packed).rx_options
          ≡ set_options darwin_options packed.options packed.recv_wscale tcp_options)
unfolding unpack
unpack-darwin_options packed =
    add_options-eq darwin_options packed.options packed.send_wscale packed.recv_wscale tcp_options
      ([], []) darwin_options-Known
