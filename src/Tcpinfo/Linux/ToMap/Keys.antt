-- ===== src/Tcpinfo/Linux/ToMap/Keys.antt =====
-- What the map of a `SysInfo` holds under its optional keys.
use Prim.Native.String.{String}
use sockstats.Common.{◌≡◌, All, arith, Option, some, none, List, [], ◌∷◌, if◌then◌else◌}
use sockstats.Tcpinfo.AnyMap.Lookup.{Distinct, Absent, given, lookup-assign_valid}
use sockstats.Tcpinfo.AnyMap.{Value, flag, uint8, uint16, uint32, uint64, int, lookup}
use sockstats.Tcpinfo.Linux.SysInfo.{SysInfo, Nullable}
use sockstats.Tcpinfo.Linux.ToMap.{always, optional, to_map}

optional-Distinct : (s : SysInfo) → Distinct (optional s)
unfolding optional
optional-Distinct s = ground arith

optional-Absent : (s : SysInfo) → Absent (always s) (optional s)
unfolding optional always lookup
optional-Absent s = ground arith

-- What a map should hold of a nullable field.
abbrev pub held : {A : Type 0} → (A → Value) → Nullable A → Option Value
held wrapped n = if n.valid then some (wrapped n.value) else none

-- A key, and what the map should hold under it.
pub record Keyed : Type 0 where
  pub key : String
  pub holds : SysInfo → Option Value

abbrev keyed : String → (SysInfo → Option Value) → Keyed
keyed k f = record { key = k; holds = f }

-- The nullable fields of the struct with the keys of their JSON tags. Two keys are not those of the
-- tags, which are rwndLimited for `RxWindowLimited` and sndbufLimited for `TxBufferLimited`.
abbrev pub nullable_fields : List Keyed
nullable_fields =
    keyed "deliveryRateAppLimited" (λ s. held flag s.delivery_rate_app_limited)
    ∷ keyed "fastOpenClientFail" (λ s. held uint8 s.fast_open_client_fail)
    ∷ keyed "pacingRate" (λ s. held uint64 s.pacing_rate)
    ∷ keyed "maxPacingRate" (λ s. held uint64 s.max_pacing_rate)
    ∷ keyed "bytesAcked" (λ s. held uint64 s.bytes_acked)
    ∷ keyed "bytesReceived" (λ s. held uint64 s.bytes_received)
    ∷ keyed "segsOut" (λ s. held uint32 s.segs_out)
    ∷ keyed "segsIn" (λ s. held uint32 s.segs_in)
    ∷ keyed "notSentBytes" (λ s. held uint32 s.not_sent_bytes)
    ∷ keyed "minRTT" (λ s. held int s.min_rtt)
    ∷ keyed "dataSegsIn" (λ s. held uint32 s.data_segs_in)
    ∷ keyed "dataSegsOut" (λ s. held uint32 s.data_segs_out)
    ∷ keyed "deliveryRate" (λ s. held uint64 s.delivery_rate)
    ∷ keyed "busyTime" (λ s. held uint64 s.busy_time)
    ∷ keyed "rxWindowLimited" (λ s. held uint64 s.rx_window_limited)
    ∷ keyed "txBufferLimited" (λ s. held uint64 s.tx_buffer_limited)
    ∷ keyed "delivered" (λ s. held uint32 s.delivered)
    ∷ keyed "deliveredCE" (λ s. held uint32 s.delivered_ce)
    ∷ keyed "bytesSent" (λ s. held uint64 s.bytes_sent)
    ∷ keyed "bytesRetrans" (λ s. held uint64 s.bytes_retrans)
    ∷ keyed "dsackDups" (λ s. held uint32 s.dsack_dups)
    ∷ keyed "reordSeen" (λ s. held uint32 s.reord_seen)
    ∷ keyed "rxOutOfOrder" (λ s. held uint32 s.rx_out_of_order)
    ∷ keyed "txWindow" (λ s. held uint32 s.tx_window)
    ∷ keyed "rxWindow" (λ s. held uint32 s.rx_window)
    ∷ keyed "rehash" (λ s. held uint32 s.rehash)
    ∷ keyed "totalRTO" (λ s. held uint16 s.total_rto)
    ∷ keyed "totalRTORecoveries" (λ s. held uint16 s.total_rto_recoveries)
    ∷ keyed "totalRTOTime" (λ s. held uint32 s.total_rto_time)
    ∷ keyed "ccVegasEnabled" (λ s. held uint32 s.cc_vegas_enabled)
    ∷ keyed "ccVegasRTTCnt" (λ s. held uint32 s.cc_vegas_rtt_cnt)
    ∷ keyed "ccVegasRTT" (λ s. held int s.cc_vegas_rtt)
    ∷ keyed "ccVegasRTTMin" (λ s. held int s.cc_vegas_rtt_min)
    ∷ keyed "ccBBRBwLo" (λ s. held uint32 s.cc_bbr_bw_lo)
    ∷ keyed "ccBBRBwHi" (λ s. held uint32 s.cc_bbr_bw_hi)
    ∷ keyed "ccBBRMinRTT" (λ s. held int s.cc_bbr_min_rtt)
    ∷ keyed "ccBBRPacingGain" (λ s. held uint32 s.cc_bbr_pacing_gain)
    ∷ keyed "ccBBRCWindowGain" (λ s. held uint32 s.cc_bbr_c_window_gain)
    ∷ keyed "ccDCTCPEnabled" (λ s. held flag s.cc_dctcp_enabled)
    ∷ keyed "ccDCTCPCEState" (λ s. held uint16 s.cc_dctcp_ce_state)
    ∷ keyed "ccDCTCPAlpha" (λ s. held uint32 s.cc_dctcp_alpha)
    ∷ keyed "ccDCTCPABECN" (λ s. held uint32 s.cc_dctcp_ab_ecn)
    ∷ keyed "ccDCTCPABTOT" (λ s. held uint32 s.cc_dctcp_ab_tot)
    ∷ []

pub optional-given : (s : SysInfo) → All (λ e. lookup e.key (to_map s) ≡ given e) (optional s)
unfolding to_map
optional-given s =
    lookup-assign_valid (optional s) (always s) (optional-Distinct s) (optional-Absent s)

-- For each of the 43 nullable fields of `SysInfo`, the map has the key of the field exactly if the
-- field is valid, and then holds under it the value of this field with the Go type of the field. The
-- keys are those of the JSON tags of the struct, but for rxWindowLimited and txBufferLimited, which
-- the tags call rwndLimited and sndbufLimited.
pub lookup-to_map : (s : SysInfo) → All (λ f. lookup f.key (to_map s) ≡ f.holds s) nullable_fields
unfolding optional
lookup-to_map s = optional-given s
