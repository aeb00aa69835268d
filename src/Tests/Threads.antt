-- ===== src/Tests/Threads.antt =====
-- wrap.go: two goroutines on one connection.
use Prim.Native.String.{String}
use sockstats.Common.Int.{pos, ◌+ℤ◌}
use sockstats.Common.Word.{wrap_64}
use sockstats.Common.{
  ℕ, ◌≤◌, ◌≡◌, ◌⊎◌, refl, true, none, some, List, [], ◌∷◌, ◌*◌, All, arith, length, ◌==◌,
  if◌then◌else◌,
}
use sockstats.Conn.Methods.{Call, read_of, write_of}
use sockstats.Conn.Platform.{Platform, linux}
use sockstats.Conn.Report.{Probe, fresh}
use sockstats.Conn.State.{NetConn, Conn, Report, track_read, track_write}
use sockstats.Conn.Sums.{total_read, total_written}
use sockstats.Conn.Threads.Bytes.{Reach-bytes}
use sockstats.Conn.Threads.Calls.{all_calls}
use sockstats.Conn.Threads.Exclusion.{holding, IsLocked, Reach-IsLocked}
use sockstats.Conn.Threads.Progress.{is_done, Completes, Reach-progress}
use sockstats.Conn.Threads.Race.{CanClose, Answers, closers, two_closes}
use sockstats.Conn.Threads.{
  ready, called, System, Step, lock_call, fetch_call, run_call, pick, Reach, here, later, start,
}
use sockstats.Tcpinfo.Linux.SysInfo.{SysInfo}
use sockstats.Tcpinfo.Linux.Unpack.{unpack}
use sockstats.Tcpinfo.Linux.Versions.{Cells}
use sockstats.Tests.Samples.{packed}

abbrev all_cells : Cells
all_cells i = true

abbrev platform : Platform
platform = linux all_cells

abbrev tcp : NetConn
tcp = record { is_tcp = true; local_addr = some "10.0.0.1:40000"; remote_addr = some "10.0.0.2:80" }

abbrev wrapped : Conn platform String
wrapped = record (fresh {P = platform} "background" tcp (pos 1000)).conn {
  supports_tcp_info = true;
}

abbrev reader : Call platform
reader = read_of (pos 5) none (pos 1100)

abbrev writer : Call platform
writer = write_of (pos 3) none (pos 1200)

abbrev programs : List (List (Call platform))
programs = (reader ∷ []) ∷ (writer ∷ []) ∷ []

-- The writer gets the mutex first.
abbrev over : System platform String
over = record {
  shared = record {
    conn = track_read (pos 5) none (pos 1100) (track_write (pos 3) none (pos 1200) wrapped);
    holder = none;
    copies = λ j.
        if 0 == j
        then track_write (pos 3) none (pos 1200) wrapped
        else if 1 == j
        then wrapped
        else wrapped;
    log = (0, called reader) ∷ (1, called writer) ∷ [];
    reports = [];
  };
  goroutines = ready [] ∷ ready [] ∷ [];
}

over_reached : Reach true (start wrapped programs) 6 over
over_reached =
    let one = later here (pick 1 refl (lock_call refl)) in
    let two = later one (pick 1 refl fetch_call) in
    let three = later two (pick 1 refl run_call) in
    let four = later three (pick 0 refl (lock_call refl)) in
    let five = later four (pick 0 refl fetch_call) in later five (pick 0 refl run_call)

Reach-bytes_example :
    (over.shared.conn.rx_bytes ≡ wrap_64 (pos 0 +ℤ total_read (all_calls programs)))
    × (over.shared.conn.tx_bytes ≡ wrap_64 (pos 0 +ℤ total_written (all_calls programs)))
Reach-bytes_example =
    Reach-bytes true wrapped programs 6 over (ground arith) (ground arith) over_reached
      (refl, (refl, tt))

Reach-progress_example :
    (6 ≤ length (all_calls programs) * 9)
    × (All (λ g. is_done g ≡ true) over.goroutines
        ⊎ ((u : System platform String) × Step true over u))
    × Completes true (start wrapped programs)
Reach-progress_example = Reach-progress true wrapped programs 6 over over_reached

Reach-IsLocked_example :
    IsLocked over
    × ((i j : ℕ) → holding over.goroutines i ≡ true → holding over.goroutines j ≡ true → i ≡ j)
Reach-IsLocked_example = Reach-IsLocked true wrapped programs 6 over over_reached

abbrev first_info : SysInfo
first_info = unpack all_cells packed

abbrev second_info : SysInfo
second_info = record first_info { rtt = pos 7000000 }

abbrev answers : SysInfo → Probe platform
answers s = record { syscall_err = none; control_err = none; sys_info = some s; tcp_err = none }

answers-Answers : (s : SysInfo) → Answers (answers s) s
answers-Answers s = record { syscall = refl; control = refl; got = refl; info = refl }

wrapped-CanClose : CanClose wrapped
wrapped-CanClose = record { supported = refl; no_error = refl; tcp = refl; unset = refl }

two_closes_example :
    (t : System platform String) × Reach true
      (start wrapped
        (closers (pos 2000) (pos 2100) (answers first_info) (answers second_info) none none))
      18
      t
    × (first : Report platform String) × (second : Report platform String) × (t.shared.reports
        ≡ second ∷ first ∷ [])
    × (first.seen.closed_info ≡ some (platform.to_info first_info))
    × (second.seen.closed_info ≡ some (platform.to_info second_info))
    × (t.shared.conn.closed_info ≡ some (platform.to_info second_info))
two_closes_example =
    two_closes (pos 2000) (pos 2100) (answers first_info) (answers second_info) none none wrapped
      first_info second_info wrapped-CanClose (answers-Answers first_info)
      (answers-Answers second_info)
