-- ===== src/Tcpinfo/Windows/SysInfo.antt =====
-- pkg/tcpinfo/tcpinfo_windows.go: `SysInfo` and `(*SysInfo).ToMap`.
use Prim.Native.String.{String}
use sockstats.Common.Int.{ℤ}
use sockstats.Common.{ℕ}
use sockstats.Tcpinfo.AnyMap.{Fields, end, field, uint8, uint32, uint64, int, str}

pub record SysInfo : Type 0 where
  pub state : ℕ  -- uint32
  pub state_name : String
  pub mss : ℕ  -- uint32
  pub connected_time_ns : ℤ
  pub rtt : ℤ
  pub rtt_min : ℤ
  pub bytes_in_flight : ℕ  -- uint32
  pub congestion_window : ℕ  -- uint32
  pub tx_window : ℕ  -- uint32
  pub rx_window : ℕ  -- uint32
  pub rx_buffer : ℕ  -- uint32
  pub tx_bytes : ℕ  -- uint64
  pub rx_bytes : ℕ  -- uint64
  pub rx_out_of_order_bytes : ℕ  -- uint32
  pub tx_retransmit_bytes : ℕ  -- uint64
  pub fast_retrans : ℕ  -- uint32
  pub dup_acks_in : ℕ  -- uint32
  pub timeout_episodes : ℕ  -- uint32
  pub syn_retrans : ℕ  -- uint8
  pub snd_lim_trans_rwin : ℕ  -- uint64
  pub snd_lim_trans_time_rwin : ℤ
  pub snd_lim_bytes_rwin : ℕ  -- uint64
  pub snd_lim_trans_cwnd : ℕ  -- uint64
  pub snd_lim_time_cwnd : ℤ
  pub snd_lim_bytes_cwnd : ℕ  -- uint64
  pub snd_lim_trans_snd : ℕ  -- uint64
  pub snd_lim_time_snd : ℤ
  pub snd_lim_bytes_snd : ℕ  -- uint64

unfoldable pub to_map : SysInfo → Fields
to_map s = field "state" (str s.state_name) (
    field "mss" (uint32 s.mss) (
      field "connectedTimeNS" (int s.connected_time_ns) (
        field "rtt" (int s.rtt) (
          field "rttMin" (int s.rtt_min) (
            field "bytesInFlight" (uint32 s.bytes_in_flight) (
              field "congestionWindow" (uint32 s.congestion_window) (
                field "txWindow" (uint32 s.tx_window) (
                  field "rxWindow" (uint32 s.rx_window) (
                    field "rxBuffer" (uint32 s.rx_buffer) (
                      field "txBytes" (uint64 s.tx_bytes) (
                        field "rxBytes" (uint64 s.rx_bytes) (
                          field "rxOutOfOrderBytes" (uint32 s.rx_out_of_order_bytes) (
                            field "txRetransmitBytes" (uint64 s.tx_retransmit_bytes) (
                              field "fastRetransmissions" (uint32 s.fast_retrans) (
                                field "duplicateAcksIn" (uint32 s.dup_acks_in) (
                                  field "timeoutEpisodes" (uint32 s.timeout_episodes) (
                                    field "synRetransmissions" (uint8 s.syn_retrans) (
                                      field "sndLimTransRwin" (uint64 s.snd_lim_trans_rwin) (
                                        field "sndLimTimeRwin" (int s.snd_lim_trans_time_rwin) (
                                          field "sndLimBytesRwin" (uint64 s.snd_lim_bytes_rwin) (
                                            field "sndLimTransCwnd" (uint64 s.snd_lim_trans_cwnd) (
                                              field "sndLimTimeCwnd" (int s.snd_lim_time_cwnd) (
                                                field "sndLimBytesCwnd"
                                                  (uint64 s.snd_lim_bytes_cwnd)
                                                  (field "sndLimTransSnd"
                                                    (uint64 s.snd_lim_trans_snd)
                                                    (field "sndLimTimeSnd" (int s.snd_lim_time_snd)
                                                      (field "sndLimBytesSnd"
                                                        (uint64 s.snd_lim_bytes_snd)
                                                        (end)))))))))))))))))))))))))))
