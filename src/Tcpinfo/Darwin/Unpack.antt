-- ===== src/Tcpinfo/Darwin/Unpack.antt =====
-- pkg/tcpinfo/tcpinfo_darwin.go: the names of states, flags and options, and `(*RawInfo).Unpack`.
use Prim.Native.Nat.{bit_and}
use Prim.Native.String.{String, ◌++◌ as str_append}
use sockstats.Common.{ℕ, Bool, not, ◌||◌, List, [], ◌∷◌, ◌++◌, ◌==◌, if◌then◌else◌}
use sockstats.Tcpinfo.Darwin.Raw.{RawInfo}
use sockstats.Tcpinfo.Darwin.SysInfo.{SysInfo}
use sockstats.Tcpinfo.Duration.{duration, millisecond}
use sockstats.Tcpinfo.Names.{Names, name_of}
use sockstats.Tcpinfo.Options.{OptionTable, add_options}

-- `tcpStateMap`
abbrev pub tcp_state_map : Names
tcp_state_map =
    (4, "ESTABLISHED")
    ∷ (2, "SYN_SENT")
    ∷ (3, "SYN_RECV")
    ∷ (6, "FIN_WAIT1")
    ∷ (9, "FIN_WAIT2")
    ∷ (10, "TIME_WAIT")
    ∷ (0, "CLOSE")
    ∷ (5, "CLOSE_WAIT")
    ∷ (8, "LAST_ACK")
    ∷ (1, "LISTEN")
    ∷ (7, "CLOSING")
    ∷ []

abbrev pub time_field_multiplier : ℕ
time_field_multiplier = millisecond

-- `tcpFlagsMap`
abbrev pub tcp_flags_map : Names
tcp_flags_map = (1, "LOSS_RECOVERY") ∷ (2, "REORDERING_DETECTED") ∷ []

-- `tcpFlags`
abbrev pub tcp_flags : List ℕ
tcp_flags = 1 ∷ 2 ∷ []

-- The loop of `tcpInfoTCPFlagsString`, with the names appended so far.
unfoldable pub flag_names : ℕ → List ℕ → List String → List String
flag_names options [] opts = opts
flag_names options (f ∷ fs) opts =
    if not (bit_and options f == 0)
    then flag_names options fs (opts ++ name_of f tcp_flags_map ∷ [])
    else flag_names options fs opts

-- `strings.Join`
unfoldable pub join : List String → String → String
join [] sep = ""
join (s ∷ []) sep = s
join (s ∷ r ∷ rs) sep = str_append s (str_append sep (join (r ∷ rs) sep))

unfoldable pub tcp_info_tcp_flags_string : ℕ → String
unfolding flag_names
tcp_info_tcp_flags_string options = join (flag_names options tcp_flags []) ","

-- `tcpOptionsMap`
abbrev pub tcp_options_map : Names
tcp_options_map = (1, "Timestamps") ∷ (2, "SACK") ∷ (4, "WindowScale") ∷ (8, "ECN") ∷ []

-- `tcpOptions`
abbrev pub tcp_options : List ℕ
tcp_options = 1 ∷ 2 ∷ 4 ∷ 8 ∷ []

-- The first `case` of the `switch flag`.
abbrev pub is_plain : ℕ → Bool
is_plain f = f == 2 || f == 8 || f == 1

abbrev pub darwin_options : OptionTable
darwin_options = record { names = tcp_options_map; is_plain = is_plain; scale = 4 }

unfoldable pub unpack : RawInfo → SysInfo
unpack packed =
    let both =
      add_options darwin_options packed.options packed.send_wscale packed.recv_wscale tcp_options
        ([], []) in
    record {
      state = packed.state;
      state_name = name_of packed.state tcp_state_map;
      tx_window_scale = packed.send_wscale;
      rx_window_scale = packed.recv_wscale;
      tx_options = both.0;
      rx_options = both.1;
      flags = tcp_info_tcp_flags_string packed.flags;
      rto = duration time_field_multiplier packed.rto;
      max_seg = packed.max_seg;
      tx_ss_threshold = packed.send_ss_thresh;
      tx_c_window = packed.send_cwnd;
      tx_window = packed.send_wnd;
      tx_send_buffer_bytes = packed.send_sb_bytes;
      rx_window = packed.recv_wnd;
      rtt_cur = duration time_field_multiplier packed.rtt_cur;
      srtt = duration time_field_multiplier packed.srtt;
      rtt_var = duration time_field_multiplier packed.rtt_var;
      tfo_flags = packed.tfo_flags;
      tx_packets = packed.tx_packets;
      tx_bytes = packed.tx_bytes;
      tx_retransmit_bytes = packed.tx_retransmit_bytes;
      rx_packets = packed.rx_packets;
      rx_bytes = packed.rx_bytes;
      rx_out_of_order_bytes = packed.rx_out_of_order_bytes;
      tx_retransmit_packets = packed.tx_retransmit_packets;
    }
