-- ===== src/Tests/Conn.antt =====
-- wrap.go on Linux: one connection from the wrapping to the closing.
use Prim.Native.String.{String}
use sockstats.Common.Int.{pos, ◌+ℤ◌}
use sockstats.Common.Word.{wrap_64}
use sockstats.Common.{
  first_or, last_or, picks, ◌≤◌, ◌≡◌, refl, true, false, not, ◌&&◌, ◌||◌, Option, none, some, List,
  [], ◌∷◌, ◌++◌, All, arith, length, ltb,
}
use sockstats.Conn.Effect.{Watches}
use sockstats.Conn.Gathered.{asks, linux_probe, session-linux}
use sockstats.Conn.Infos.{calls-closed_info}
use sockstats.Conn.Latest.{
  read_time, write_time, lasting_read_error, write_outcome, session-times, session-errors,
}
use sockstats.Conn.Methods.{
  Call, read_of, write_of, set_reconnects_of, close_of, read, write, set_reconnects, close, calls,
  session,
}
use sockstats.Conn.Platform.{Platform, linux}
use sockstats.Conn.Report.{
  Callback, Probe, opened, closed, is_set, skips, store_info, gather, report, gather_and_report,
  wrap_conn_with_context, fresh,
}
use sockstats.Conn.Reports.{IsClosing, closes, session-reports}
use sockstats.Conn.Safe.{Keys, session-returns, session-fields}
use sockstats.Conn.Snapshot.{to_map}
use sockstats.Conn.State.{
  GoError, NetConn, Conn, Report, World, lock, unlock, critical, track_read, track_write,
}
use sockstats.Conn.Sums.{total_read, total_written, session-bytes}
use sockstats.Tcpinfo.AnyMap.{Fields}
use sockstats.Tcpinfo.Linux.Get.{Error, get_tcp_info, get_raw_tcp_info, supported}
use sockstats.Tcpinfo.Linux.Versions.{Cells}
use sockstats.Tcpinfo.Linux.ToInfo.{to_info}
use sockstats.Tcpinfo.Linux.Unpack.{unpack}
use sockstats.Tests.Samples.{packed, refused}

abbrev pub all_cells : Cells
all_cells i = true

abbrev pub platform : Platform
platform = linux all_cells

-- A callback that calls `ToMap`: it takes the lock and gives it back.
abbrev watcher : Callback platform String
watcher state w = elim w.locked [ true ↦ none | false ↦ some w ]

watcher-Watches : Watches (some watcher)
watcher-Watches state w h = rw (h)

abbrev invalid : Error → GoError
invalid e = record { message = "invalid argument"; is_net_error = false; timeout = false }

abbrev timed_out : GoError
timed_out = record { message = "i/o timeout"; is_net_error = true; timeout = true }

abbrev reset : GoError
reset = record { message = "connection reset by peer"; is_net_error = true; timeout = false }

abbrev pub probe : Probe platform
probe = linux_probe all_cells invalid none none refused

abbrev pub tcp : NetConn
tcp = record { is_tcp = true; local_addr = some "10.0.0.1:40000"; remote_addr = some "10.0.0.2:80" }

abbrev story : List (Call platform)
story =
    read_of (pos 5) none (pos 1100)
    ∷ read_of (pos 0) (some timed_out) (pos 1200)
    ∷ write_of (pos 3) none (pos 1300)
    ∷ read_of (pos 2) (some reset) (pos 1400)
    ∷ close_of (pos 1500) probe none
    ∷ []

abbrev begun : Conn platform String
begun = record (fresh "background" tcp (pos 1000)).conn {
  info_err = some (invalid (Error.errno 22));
}

abbrev ended : Conn platform String
ended = record begun {
  closed_at = pos 1500;
  first_rx_at = pos 1100;
  last_rx_at = pos 1100;
  first_tx_at = pos 1300;
  last_tx_at = pos 1300;
  rx_bytes = pos 7;
  tx_bytes = pos 3;
  rx_err = some reset;
}

abbrev opening : Report platform String
opening = record { state = opened; seen = begun }

abbrev closing : Report platform String
closing = record { state = closed; seen = ended }

abbrev world : Conn platform String → List (Report platform String) → World platform String
world c rs = record { conn = c; locked = false; reports = rs }

run_begun :
    session (some watcher) "background" tcp (pos 1000) probe [] ≡ some (world begun (opening ∷ []))
unfolding session wrap_conn_with_context gather_and_report gather store_info skips report critical
    lock unlock calls supported get_tcp_info get_raw_tcp_info
run_begun = refl

run_story :
    session (some watcher) "background" tcp (pos 1000) probe story
    ≡ some (world ended (closing ∷ opening ∷ []))
unfolding session wrap_conn_with_context gather_and_report gather store_info skips report critical
    lock unlock calls read write close track_read track_write supported get_tcp_info
    get_raw_tcp_info wrap_64 ◌+ℤ◌
run_story = refl

-- The first two calls the other way round.
abbrev reordered : List (Call platform)
reordered =
    read_of (pos 0) (some timed_out) (pos 1200)
    ∷ read_of (pos 5) none (pos 1100)
    ∷ write_of (pos 3) none (pos 1300)
    ∷ read_of (pos 2) (some reset) (pos 1400)
    ∷ close_of (pos 1500) probe none
    ∷ []

run_reordered :
    session (some watcher) "background" tcp (pos 1000) probe reordered
    ≡ some (world ended (closing ∷ opening ∷ []))
unfolding session wrap_conn_with_context gather_and_report gather store_info skips report critical
    lock unlock calls read write close track_read track_write supported get_tcp_info
    get_raw_tcp_info wrap_64 ◌+ℤ◌
run_reordered = refl

session-returns_example :
    (w : World platform String) × (session (some watcher) "background" tcp (pos 1000) probe story
      ≡ some w)
    × (w.locked ≡ false)
session-returns_example =
    session-returns (some watcher) watcher-Watches "background" tcp (pos 1000) probe story

session-bytes_example :
    (pos 7 ≡ wrap_64 (total_read story)) × (pos 3 ≡ wrap_64 (total_written story))
session-bytes_example =
    session-bytes (some watcher) watcher-Watches "background" tcp (pos 1000) probe story
      (world ended (closing ∷ opening ∷ [])) run_story

session-reports_example :
    (later : List (Report platform String)) × (seen : Conn platform String) × (closing ∷ opening
        ∷ []
      ≡ later ++ record { state = opened; seen = seen } ∷ [])
    × (seen.opened_at ≡ pos 1000)
    × All IsClosing later
    × (length later ≤ closes story)
    × (ltb 0 (length later) ≡ ltb 0 (closes story))
session-reports_example =
    session-reports watcher watcher-Watches "background" tcp (pos 1000) probe story
      (world ended (closing ∷ opening ∷ [])) run_story

session-times_example :
    (pos 1100 ≡ first_or (pos 0) (picks read_time story))
    × (pos 1100 ≡ last_or (pos 0) (picks read_time story))
    × (pos 1300 ≡ first_or (pos 0) (picks write_time story))
    × (pos 1300 ≡ last_or (pos 0) (picks write_time story))
session-times_example =
    session-times (some watcher) watcher-Watches "background" tcp (pos 1000) probe story
      (world ended (closing ∷ opening ∷ [])) run_story (ground arith) (ground arith)

session-errors_example :
    (some reset ≡ last_or none (picks lasting_read_error story))
    × (none ≡ last_or none (picks write_outcome story))
session-errors_example =
    session-errors (some watcher) watcher-Watches "background" tcp (pos 1000) probe story
      (world ended (closing ∷ opening ∷ [])) run_story

session-linux_example :
    (false ≡ (asks all_cells tcp none && not (false || is_set (get_tcp_info all_cells refused).1)))
    × (true ≡ (asks all_cells tcp none && (false || is_set (get_tcp_info all_cells refused).1)))
session-linux_example =
    session-linux all_cells watcher watcher-Watches invalid none none refused "background" tcp
      (pos 1000) (world begun (opening ∷ [])) run_begun

session-fields_example :
    (tcp ≡ tcp)
    × ((o : Option Fields) × (to_map (world ended (closing ∷ opening ∷ []))
          ≡ some (world ended (closing ∷ opening ∷ []), o))
        × Keys ended o)
session-fields_example =
    session-fields (some watcher) watcher-Watches "background" tcp (pos 1000) probe story
      (world ended (closing ∷ opening ∷ [])) run_story

-- The calls on a connection that has both infos.
abbrev full : Conn platform String
full = record begun {
  info_err = none;
  opened_info = some (to_info (unpack all_cells packed));
  closed_info = some (to_info (unpack all_cells packed));
}

abbrev again : List (Call platform)
again = set_reconnects_of (pos 2) ∷ close_of (pos 1600) probe none ∷ []

abbrev full_later : Conn platform String
full_later = record full { closed_at = pos 1600; reconnects = pos 2 }

run_again : calls (some watcher) again (world full []) ≡ some (world full_later [])
unfolding calls set_reconnects close critical lock unlock gather_and_report skips
run_again = refl

calls-closed_info_example :
    (full_later.closed_info ≡ full.closed_info)
    × ((world full_later []).reports ≡ (world full []).reports)
calls-closed_info_example =
    calls-closed_info (some watcher) watcher-Watches again (world full []) (world full_later [])
      refl run_again refl

run_after_error : calls (some watcher) story (world begun []) ≡ some (world ended (closing ∷ []))
unfolding gather_and_report gather store_info skips report critical lock unlock calls read write
    close track_read track_write wrap_64 ◌+ℤ◌ supported
run_after_error = refl
