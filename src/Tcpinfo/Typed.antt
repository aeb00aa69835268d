-- ===== src/Tcpinfo/Typed.antt =====
-- pkg/tcpinfo: the kinds of the values that the `ToMap` methods of all the platforms give.
use Prim.Native.String.{String}
use text.Mathlib.Text.{◌==◌ as str_eq}
use sockstats.Common.{
  ◌≡◌, refl, Bool, true, false, ◌||◌, ◌⊎◌, some, List, [], ◌∷◌, if◌then◌else◌, Option-cases, inl,
  inr,
}
use sockstats.Tcpinfo.AnyMap.Kinds.{
  Kind, unsigned, unsigned_8, unsigned_16, unsigned_32, unsigned_64, fits, signed, string, boolean,
  option_list, map, kind, is_typed, lookup-is_typed, assign-is_typed, assign_valid-is_typed,
}
use sockstats.Tcpinfo.AnyMap.{Value, Fields, lookup, obj}
use sockstats.Tcpinfo.Darwin.SysInfo as Darwin
use sockstats.Tcpinfo.Info as Info
use sockstats.Tcpinfo.Info.{Info, info_fields}
use sockstats.Tcpinfo.Linux.SysInfo as Linux
use sockstats.Tcpinfo.Linux.ToMap as LinuxMap
use sockstats.Tcpinfo.Linux.ToMap.{always, optional}
use sockstats.Tcpinfo.Windows.SysInfo as Windows

abbrev pub is_one_of : String → List String → Bool
is_one_of k [] = false
is_one_of k (j ∷ js) = str_eq k j || is_one_of k js

-- Durations, and instants on a clock.
abbrev pub duration_keys : List String
duration_keys =
    "rto" ∷ "ato" ∷ "rtt" ∷ "rttVar" ∷ "rttMin" ∷ "rttCur" ∷ "rttSmoothed" ∷ "rxRTT" ∷ "minRTT"
    ∷ "lastTxAt" ∷ "lastTxAckAt" ∷ "lastRxAt" ∷ "lastRxAckAt" ∷ "connectedTimeNS" ∷ "sndLimTimeRwin"
    ∷ "sndLimTimeCwnd" ∷ "sndLimTimeSnd" ∷ "ccVegasRTT" ∷ "ccVegasRTTMin" ∷ "ccBBRMinRTT" ∷ []

abbrev pub string_keys : List String
string_keys = "state" ∷ "ccAlgorithm" ∷ "flags" ∷ []

abbrev pub option_keys : List String
option_keys = "txOptions" ∷ "rxOptions" ∷ []

abbrev pub boolean_keys : List String
boolean_keys = "deliveryRateAppLimited" ∷ "ccDCTCPEnabled" ∷ []

-- The counts of one byte.
abbrev pub uint8_keys : List String
uint8_keys =
    "caState" ∷ "probes" ∷ "backoff" ∷ "txWindowScale" ∷ "rxWindowScale" ∷ "fastOpenClientFail"
    ∷ "synRetransmissions" ∷ []

-- Those of two bytes.
abbrev pub uint16_keys : List String
uint16_keys = "totalRTO" ∷ "totalRTORecoveries" ∷ "ccDCTCPCEState" ∷ []

-- Those of four bytes.
abbrev pub uint32_keys : List String
uint32_keys =
    "unAcked" ∷ "sacked" ∷ "lost" ∷ "retrans" ∷ "fackets" ∷ "pmtu" ∷ "txCWindow" ∷ "advMSS"
    ∷ "reordering" ∷ "rxSpace" ∷ "totalRetrans" ∷ "segsOut" ∷ "segsIn" ∷ "notSentBytes"
    ∷ "dataSegsIn" ∷ "dataSegsOut" ∷ "delivered" ∷ "deliveredCE" ∷ "dsackDups" ∷ "reordSeen"
    ∷ "rxOutOfOrder" ∷ "txWindow" ∷ "rehash" ∷ "totalRTOTime" ∷ "ccVegasEnabled" ∷ "ccVegasRTTCnt"
    ∷ "ccBBRBwLo" ∷ "ccBBRBwHi" ∷ "ccBBRPacingGain" ∷ "ccBBRCWindowGain" ∷ "ccDCTCPAlpha"
    ∷ "ccDCTCPABECN" ∷ "ccDCTCPABTOT" ∷ "mss" ∷ "txSendBufferBytes" ∷ "tfoFlags" ∷ "bytesInFlight"
    ∷ "congestionWindow" ∷ "rxBuffer" ∷ "fastRetransmissions" ∷ "duplicateAcksIn"
    ∷ "timeoutEpisodes" ∷ []

-- The counts whose width differs from map to map: four bytes in most of the maps of a `SysInfo`, one for
-- the retransmits of Linux, and eight in the map of `Info` and for the bytes out of order of Darwin.
abbrev pub mixed_keys : List String
mixed_keys =
    "retransmits" ∷ "txMSS" ∷ "rxMSS" ∷ "rxSSThreshold" ∷ "txSSThreshold" ∷ "rxWindow"
    ∷ "txCWindowBytes" ∷ "rxOutOfOrderBytes" ∷ []

-- The kind that a key stands for, on whatever platform; all other keys are counts of eight bytes.
abbrev pub kind_of : String → Kind
kind_of k =
    if is_one_of k duration_keys
    then signed
    else if is_one_of k string_keys
    then string
    else if is_one_of k option_keys
    then option_list
    else if is_one_of k boolean_keys
    then boolean
    else if str_eq k "sysInfo"
    then map
    else if is_one_of k mixed_keys
    then unsigned
    else if is_one_of k uint8_keys
    then unsigned_8
    else if is_one_of k uint16_keys
    then unsigned_16
    else if is_one_of k uint32_keys
    then unsigned_32
    else unsigned_64

linux-is_typed : (s : Linux.SysInfo) → is_typed kind_of (LinuxMap.to_map s) ≡ true
unfolding LinuxMap.to_map always optional
linux-is_typed s = assign_valid-is_typed kind_of (optional s) (always s) refl refl

darwin-is_typed : (s : Darwin.SysInfo) → is_typed kind_of (Darwin.to_map s) ≡ true
unfolding Darwin.to_map
darwin-is_typed s = refl

windows-is_typed : (s : Windows.SysInfo) → is_typed kind_of (Windows.to_map s) ≡ true
unfolding Windows.to_map
windows-is_typed s = refl

info-is_typed :
    {S : Type 0} (sys_to_map : S → Fields) (i : Info S)
    → is_typed kind_of (Info.to_map sys_to_map i) ≡ true
unfolding Info.to_map info_fields
info-is_typed sys_to_map i = elim (Option-cases i.sys) [
  | inl unset ↦ rw (unset, Info.to_map) refl
  | inr (s, set) ↦
      rw (set, Info.to_map)
        (assign-is_typed kind_of "sysInfo" (obj (sys_to_map s)) (info_fields i) refl refl)
]

-- A value that one of the maps holds under a key: that of a `SysInfo` of Linux, of Darwin or of
-- Windows, or that of an `Info` on any platform.
abbrev pub Holds :
    {S : Type 0}
    → (S → Fields)
    → Linux.SysInfo
    → Darwin.SysInfo
    → Windows.SysInfo
    → Info S
    → String
    → Value
    → Type 0
Holds sys_to_map l d w i k v =
    (lookup k (LinuxMap.to_map l) ≡ some v)
    ⊎ (lookup k (Darwin.to_map d) ≡ some v)
    ⊎ (lookup k (Windows.to_map w) ≡ some v)
    ⊎ (lookup k (Info.to_map sys_to_map i) ≡ some v)

-- One Go type of value belongs to each key, the same in the maps of `SysInfo` on Linux, Darwin and
-- Windows, on all kernels and with all congestion algorithms, and in the map of `Info`: durations
-- and times are signed, the names of the state, the algorithm and the flags are strings, the
-- options are lists, two keys are Booleans, the key sysInfo is a map, and all others are unsigned,
-- of the width that the key has in the tables. Only of the eight keys of `mixed_keys`, which are
-- unsigned too, the width may differ from map to map.
pub lookup-kind_of :
    {S : Type 0} (sys_to_map : S → Fields) (l : Linux.SysInfo) (d : Darwin.SysInfo)
    (w : Windows.SysInfo) (i : Info S) (k : String) (v : Value)
    → Holds sys_to_map l d w i k v
    → fits (kind v) (kind_of k) ≡ true
lookup-kind_of f l d w i k v (inl e) =
    lookup-is_typed kind_of k (LinuxMap.to_map l) v (linux-is_typed l) e
lookup-kind_of f l d w i k v (inr (inl e)) =
    lookup-is_typed kind_of k (Darwin.to_map d) v (darwin-is_typed d) e
lookup-kind_of f l d w i k v (inr (inr (inl e))) =
    lookup-is_typed kind_of k (Windows.to_map w) v (windows-is_typed w) e
lookup-kind_of f l d w i k v (inr (inr (inr e))) =
    lookup-is_typed kind_of k (Info.to_map f i) v (info-is_typed f i) e
