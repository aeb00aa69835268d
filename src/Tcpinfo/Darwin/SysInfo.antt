-- ===== src/Tcpinfo/Darwin/SysInfo.antt =====
-- pkg/tcpinfo/tcpinfo_darwin.go: `SysInfo` and `(*SysInfo).ToMap`.
use Prim.Native.String.{String}
use sockstats.Common.Int.{ℤ}
use sockstats.Common.{ℕ, List}
use sockstats.Tcpinfo.AnyMap.{Fields, end, field, uint8, uint32, uint64, int, str, options}
use sockstats.Tcpinfo.TcpOption.{TcpOption}

pub record SysInfo : Type 0 where
  pub state : ℕ  -- uint8
  pub state_name : String
  pub tx_window_scale : ℕ  -- uint8
  pub rx_window_scale : ℕ  -- uint8
  pub tx_options : List TcpOption
  pub rx_options : List TcpOption
  pub flags : String
  pub rto : ℤ
  pub max_seg : ℕ  -- uint32
  pub tx_ss_threshold : ℕ  -- uint32
  pub tx_c_window : ℕ  -- uint32
  pub tx_window : ℕ  -- uint32
  pub tx_send_buffer_bytes : ℕ  -- uint32
  pub rx_window : ℕ  -- uint32
  pub rtt_cur : ℤ
  pub srtt : ℤ
  pub rtt_var : ℤ
  pub tfo_flags : ℕ  -- uint32
  pub tx_packets : ℕ  -- uint64
  pub tx_bytes : ℕ  -- uint64
  pub tx_retransmit_bytes : ℕ  -- uint64
  pub rx_packets : ℕ  -- uint64
  pub rx_bytes : ℕ  -- uint64
  pub rx_out_of_order_bytes : ℕ  -- uint64
  pub tx_retransmit_packets : ℕ  -- uint64

unfoldable pub to_map : SysInfo → Fields
to_map s = field "state" (str s.state_name) (
    field "txWindowScale" (uint8 s.tx_window_scale) (
      field "rxWindowScale" (uint8 s.rx_window_scale) (
        field "txOptions" (options s.tx_options) (
          field "rxOptions" (options s.rx_options) (
            field "flags" (str s.flags) (
              field "rto" (int s.rto) (
                field "mss" (uint32 s.max_seg) (
                  field "txSSThreshold" (uint32 s.tx_ss_threshold) (
                    field "txCWindowBytes" (uint32 s.tx_c_window) (
                      field "txWindow" (uint32 s.tx_window) (
                        field "txSendBufferBytes" (uint32 s.tx_send_buffer_bytes) (
                          field "rxWindow" (uint32 s.rx_window) (
                            field "rttCur" (int s.rtt_cur) (
                              field "rttSmoothed" (int s.srtt) (
                                field "rttVar" (int s.rtt_var) (
                                  field "tfoFlags" (uint32 s.tfo_flags) (
                                    field "txPackets" (uint64 s.tx_packets) (
                                      field "txBytes" (uint64 s.tx_bytes) (
                                        field "txRetransmitBytes" (uint64 s.tx_retransmit_bytes) (
                                          field "rxPackets" (uint64 s.rx_packets) (
                                            field "rxBytes" (uint64 s.rx_bytes) (
                                              field "rxOutOfOrderBytes"
                                                (uint64 s.rx_out_of_order_bytes)
                                                (field "txRetransmitPackets"
                                                  (uint64 s.tx_retransmit_packets)
                                                  (end))))))))))))))))))))))))
