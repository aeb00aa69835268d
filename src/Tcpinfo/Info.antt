-- ===== src/Tcpinfo/Info.antt =====
-- pkg/tcpinfo/tcpinfo.go: the OS-agnostic `Info` and its map. `SysInfo` differs by platform, so
-- `Info` is a record over it; the pointer `Sys` may be nil.
use Prim.Native.String.{String}
use sockstats.Common.{ℕ, Option, none, some, List}
use sockstats.Common.Int.{ℤ}
use sockstats.Tcpinfo.AnyMap.{Fields, end, field, assign, uint64, int, str, options, obj}
use sockstats.Tcpinfo.TcpOption.{TcpOption}

pub record Info (S : Type 0) : Type 0 where
  pub state : String
  pub tx_options : List TcpOption
  pub rx_options : List TcpOption
  pub tx_mss : ℕ
  pub rx_mss : ℕ
  pub rtt : ℤ
  pub rtt_var : ℤ
  pub rto : ℤ
  pub ato : ℤ
  pub last_tx_at : ℤ
  pub last_rx_at : ℤ
  pub last_tx_ack_at : ℤ
  pub last_rx_ack_at : ℤ
  pub rx_window : ℕ
  pub tx_ss_threshold : ℕ
  pub rx_ss_threshold : ℕ
  pub tx_window_bytes : ℕ
  pub tx_window_segs : ℕ
  pub retransmits : ℕ
  pub sys : Option S

unfoldable pub info_fields : {S : Type 0} → Info S → Fields
info_fields i = field "state" (str i.state) (
    field "txOptions" (options i.tx_options) (
      field "rxOptions" (options i.rx_options) (
        field "txMSS" (uint64 i.tx_mss) (
          field "rxMSS" (uint64 i.rx_mss) (
            field "rtt" (int i.rtt) (
              field "rttVar" (int i.rtt_var) (
                field "rto" (int i.rto) (
                  field "ato" (int i.ato) (
                    field "lastTxAt" (int i.last_tx_at) (
                      field "lastRxAt" (int i.last_rx_at) (
                        field "lastTxAckAt" (int i.last_tx_ack_at) (
                          field "lastRxAckAt" (int i.last_rx_ack_at) (
                            field "rxWindow" (uint64 i.rx_window) (
                              field "txSSThreshold" (uint64 i.tx_ss_threshold) (
                                field "rxSSThreshold" (uint64 i.rx_ss_threshold) (
                                  field "txCWindowBytes" (uint64 i.tx_window_bytes) (
                                    field "txCWindowSegs" (uint64 i.tx_window_segs) (
                                      field "retransmits" (uint64 i.retransmits)
                                        end))))))))))))))))))

-- `(*Info).ToMap`, over the `ToMap` of the platform's `SysInfo`.
unfoldable pub to_map : {S : Type 0} → (S → Fields) → Info S → Fields
unfolding info_fields
to_map sys_to_map i = elim i.sys [
  | none ↦ info_fields i
  | some s ↦ assign "sysInfo" (obj (sys_to_map s)) (info_fields i)
]
