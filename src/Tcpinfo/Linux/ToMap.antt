-- ===== src/Tcpinfo/Linux/ToMap.antt =====
-- pkg/tcpinfo/tcpinfo_linux.go: `(*SysInfo).ToMap`. The map literal is `always`, and each
-- statement `if s.F.Valid { r[k] = s.F.Value }` is an entry of `optional`, in their order.
pub mod Keys
use sockstats.Common.{List, [], ◌∷◌}
use sockstats.Tcpinfo.AnyMap.{
  Fields, end, field, Entry, entry, int, uint8, uint16, uint32, uint64, str, flag, options,
  assign_valid,
}
use sockstats.Tcpinfo.Linux.SysInfo.{SysInfo}

unfoldable pub always : SysInfo → Fields
always s = field "state" (str s.state_name) (
    field "caState" (uint8 s.ca_state) (
      field "retransmits" (uint8 s.retransmits) (
        field "probes" (uint8 s.probes) (
          field "backoff" (uint8 s.backoff) (
            field "txOptions" (options s.tx_options) (
              field "rxOptions" (options s.rx_options) (
                field "txWindowScale" (uint8 s.tx_window_scale) (
                  field "rxWindowScale" (uint8 s.rx_window_scale) (
                    field "rto" (int s.rto) (
                      field "ato" (int s.ato) (
                        field "txMSS" (uint32 s.tx_mss) (
                          field "rxMSS" (uint32 s.rx_mss) (
                            field "unAcked" (uint32 s.un_acked) (
                              field "sacked" (uint32 s.sacked) (
                                field "lost" (uint32 s.lost) (
                                  field "retrans" (uint32 s.retrans) (
                                    field "fackets" (uint32 s.fackets) (
                                      field "lastTxAt" (int s.last_tx_at) (
                                        field "lastTxAckAt" (int s.last_tx_ack_at) (
                                          field "lastRxAt" (int s.last_rx_at) (
                                            field "lastRxAckAt" (int s.last_rx_ack_at) (
                                              field "pmtu" (uint32 s.pmtu) (
                                                field "rxSSThreshold" (uint32 s.rx_ss_threshold) (
                                                  field "rtt" (int s.rtt) (
                                                    field "rttVar" (int s.rtt_var) (
                                                      field "txSSThreshold"
                                                        (uint32 s.tx_ss_threshold)
                                                        (field "txCWindow" (uint32 s.tx_c_window) (
                                                          field "advMSS" (uint32 s.adv_mss) (
                                                            field "reordering" (uint32 s.reordering)
                                                            (field "rxRTT" (int s.rx_rtt) (
                                                            field "rxSpace" (uint32 s.rx_space) (
                                                            field "totalRetrans"
                                                            (uint32 s.total_retrans)
                                                            (field "ccAlgorithm"
                                                            (str s.cc_algorithm)
                                                            (end))))))))))))))))))))))))))))))))))

unfoldable pub optional : SysInfo → List Entry
optional s =
    entry "deliveryRateAppLimited" s.delivery_rate_app_limited.valid
      (flag s.delivery_rate_app_limited.value)
    ∷ entry "fastOpenClientFail" s.fast_open_client_fail.valid (uint8 s.fast_open_client_fail.value)
    ∷ entry "pacingRate" s.pacing_rate.valid (uint64 s.pacing_rate.value)
    ∷ entry "maxPacingRate" s.max_pacing_rate.valid (uint64 s.max_pacing_rate.value)
    ∷ entry "bytesAcked" s.bytes_acked.valid (uint64 s.bytes_acked.value)
    ∷ entry "bytesReceived" s.bytes_received.valid (uint64 s.bytes_received.value)
    ∷ entry "segsOut" s.segs_out.valid (uint32 s.segs_out.value)
    ∷ entry "segsIn" s.segs_in.valid (uint32 s.segs_in.value)
    ∷ entry "notSentBytes" s.not_sent_bytes.valid (uint32 s.not_sent_bytes.value)
    ∷ entry "minRTT" s.min_rtt.valid (int s.min_rtt.value)
    ∷ entry "dataSegsIn" s.data_segs_in.valid (uint32 s.data_segs_in.value)
    ∷ entry "dataSegsOut" s.data_segs_out.valid (uint32 s.data_segs_out.value)
    ∷ entry "deliveryRate" s.delivery_rate.valid (uint64 s.delivery_rate.value)
    ∷ entry "busyTime" s.busy_time.valid (uint64 s.busy_time.value)
    ∷ entry "rxWindowLimited" s.rx_window_limited.valid (uint64 s.rx_window_limited.value)
    ∷ entry "txBufferLimited" s.tx_buffer_limited.valid (uint64 s.tx_buffer_limited.value)
    ∷ entry "delivered" s.delivered.valid (uint32 s.delivered.value)
    ∷ entry "deliveredCE" s.delivered_ce.valid (uint32 s.delivered_ce.value)
    ∷ entry "bytesSent" s.bytes_sent.valid (uint64 s.bytes_sent.value)
    ∷ entry "bytesRetrans" s.bytes_retrans.valid (uint64 s.bytes_retrans.value)
    ∷ entry "dsackDups" s.dsack_dups.valid (uint32 s.dsack_dups.value)
    ∷ entry "reordSeen" s.reord_seen.valid (uint32 s.reord_seen.value)
    ∷ entry "rxOutOfOrder" s.rx_out_of_order.valid (uint32 s.rx_out_of_order.value)
    ∷ entry "txWindow" s.tx_window.valid (uint32 s.tx_window.value)
    ∷ entry "rxWindow" s.rx_window.valid (uint32 s.rx_window.value)
    ∷ entry "rehash" s.rehash.valid (uint32 s.rehash.value)
    ∷ entry "totalRTO" s.total_rto.valid (uint16 s.total_rto.value)
    ∷ entry "totalRTORecoveries" s.total_rto_recoveries.valid (uint16 s.total_rto_recoveries.value)
    ∷ entry "totalRTOTime" s.total_rto_time.valid (uint32 s.total_rto_time.value)
    ∷ entry "ccVegasEnabled" s.cc_vegas_enabled.valid (uint32 s.cc_vegas_enabled.value)
    ∷ entry "ccVegasRTTCnt" s.cc_vegas_rtt_cnt.valid (uint32 s.cc_vegas_rtt_cnt.value)
    ∷ entry "ccVegasRTT" s.cc_vegas_rtt.valid (int s.cc_vegas_rtt.value)
    ∷ entry "ccVegasRTTMin" s.cc_vegas_rtt_min.valid (int s.cc_vegas_rtt_min.value)
    ∷ entry "ccBBRBwLo" s.cc_bbr_bw_lo.valid (uint32 s.cc_bbr_bw_lo.value)
    ∷ entry "ccBBRBwHi" s.cc_bbr_bw_hi.valid (uint32 s.cc_bbr_bw_hi.value)
    ∷ entry "ccBBRMinRTT" s.cc_bbr_min_rtt.valid (int s.cc_bbr_min_rtt.value)
    ∷ entry "ccBBRPacingGain" s.cc_bbr_pacing_gain.valid (uint32 s.cc_bbr_pacing_gain.value)
    ∷ entry "ccBBRCWindowGain" s.cc_bbr_c_window_gain.valid (uint32 s.cc_bbr_c_window_gain.value)
    ∷ entry "ccDCTCPEnabled" s.cc_dctcp_enabled.valid (flag s.cc_dctcp_enabled.value)
    ∷ entry "ccDCTCPCEState" s.cc_dctcp_ce_state.valid (uint16 s.cc_dctcp_ce_state.value)
    ∷ entry "ccDCTCPAlpha" s.cc_dctcp_alpha.valid (uint32 s.cc_dctcp_alpha.value)
    ∷ entry "ccDCTCPABECN" s.cc_dctcp_ab_ecn.valid (uint32 s.cc_dctcp_ab_ecn.value)
    ∷ entry "ccDCTCPABTOT" s.cc_dctcp_ab_tot.valid (uint32 s.cc_dctcp_ab_tot.value)
    ∷ []

unfoldable pub to_map : SysInfo → Fields
to_map s = assign_valid (optional s) (always s)
