-- ===== src/Tests/Other.antt =====
-- wrap.go where pkg/tcpinfo is not supported, and cmd/get, on concrete connections.
use sockstats.Common.Int.{pos, ◌+ℤ◌}
use sockstats.Common.Text.{Text, codes}
use sockstats.Common.Word.{wrap_64}
use sockstats.Common.{◌≡◌, refl, true, false, ◌&&◌, none, some, List, [], ◌∷◌, suc, length}
use sockstats.Conn.Effect.{Watches, free}
use sockstats.Conn.Safe.{HasSys}
use sockstats.Conn.Methods.{Call, read_of, close_of, read, close, calls, session}
use sockstats.Conn.Platform.{other}
use sockstats.Conn.Report.{
  Callback, Probe, is_set, fresh, wrap_conn_with_context, gather_and_report, gather, store_info,
  skips, report,
}
use sockstats.Conn.Reports.{closes}
use sockstats.Conn.State.{Conn, Report, World, lock, unlock, critical, track_read}
use sockstats.Conn.Unsupported.{session-unsupported}
use sockstats.Example.Panics.{gathers, has_addrs, close-print_stats}
use sockstats.Example.{Prints, print_closed, print_stats}
use sockstats.Tcpinfo.Linux.Get.{supported}
use sockstats.Tcpinfo.Linux.ToInfo.{to_info}
use sockstats.Tcpinfo.Linux.Unpack.{unpack}
use sockstats.Tcpinfo.Other as None
use sockstats.Tests.Conn.{all_cells, platform, tcp}
use sockstats.Tests.Samples.{packed}

abbrev quiet : Callback other (Unit {0})
quiet state w = some w

quiet-Watches : Watches (some quiet)
quiet-Watches state w h = refl

-- What `GetTCPInfo` would give: the platform is never asked.
abbrev unasked : Probe other
unasked = record { syscall_err = none; control_err = none; sys_info = none; tcp_err = none }

abbrev twice : List (Call other)
twice =
    read_of (pos 5) none (pos 1100)
    ∷ close_of (pos 1200) unasked none
    ∷ close_of (pos 1300) unasked none
    ∷ []

abbrev bare : World other (Unit {0})
bare = record {
  conn = record (fresh tt tcp (pos 1000)).conn {
    first_rx_at = pos 1100;
    last_rx_at = pos 1100;
    rx_bytes = pos 5;
    closed_at = pos 1300;
  };
  locked = false;
  reports = [];
}

run_twice :
    (rs : List (Report other (Unit {0}))) × (session (some quiet) tt tcp (pos 1000) unasked twice
      ≡ some (record bare { reports = rs }))
    × (length rs ≡ 3)
unfolding session wrap_conn_with_context gather_and_report gather skips report critical lock unlock
    calls read close track_read None.supported wrap_64 ◌+ℤ◌
run_twice = (_, refl, refl)

never_supported : other.supported ≡ false
unfolding None.supported
never_supported = refl

session-unsupported_example :
    (bare.conn.opened_info ≡ none)
    × (bare.conn.closed_info ≡ none)
    × (bare.conn.info_err ≡ none)
    × (length run_twice.0 ≡ suc (closes twice))
session-unsupported_example =
    session-unsupported quiet quiet-Watches tt tcp (pos 1000) unasked twice
      (record bare { reports = run_twice.0 }) never_supported run_twice.1

abbrev prints : Prints platform Text
prints = record { duration = λ d. codes "1s"; json = λ c. codes "{}" }

abbrev answered : Probe platform
answered = record {
  syscall_err = none;
  control_err = none;
  sys_info = some (unpack all_cells packed);
  tcp_err = none;
}

-- A connection whose opening was gathered.
abbrev gathered : Conn platform Text
gathered = record (fresh (codes "background") tcp (pos 1000)).conn {
  opened_info = some (to_info (unpack all_cells packed));
}

gathered-HasSys : HasSys gathered
unfolding to_info
gathered-HasSys = (refl, refl, refl)

-- The closing can gather, so the callback prints its line.
close-print_stats_example :
    is_set (close (some (print_stats prints)) (pos 1500) answered none (free gathered []))
    ≡ ((true && gathers answered gathered) && has_addrs gathered)
close-print_stats_example =
    close-print_stats prints (pos 1500) answered none gathered [] gathered-HasSys refl

-- Without the info of the opening it panics.
panics :
    close
      (some (print_stats prints))
      (pos 1500)
      answered
      none
      (free (fresh (codes "background") tcp (pos 1000)).conn [])
    ≡ none
unfolding close gather_and_report gather store_info skips report critical lock unlock supported
    print_stats print_closed to_info
panics = refl
