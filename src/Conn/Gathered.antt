-- ===== src/Conn/Gathered.antt =====
-- wrap.go over pkg/tcpinfo/tcpinfo_linux.go: what a wrapping gathers on Linux.
use sockstats.Common.Int.{ℤ}
use sockstats.Common.{◌≡◌, sym, ◌∙◌, ap, Bool, true, not, ◌&&◌, ◌||◌, Option, none, some, [], arith}
use sockstats.Conn.Effect.{Watches, wrapped}
use sockstats.Conn.History.{session-end}
use sockstats.Conn.Methods.{session}
use sockstats.Conn.Platform.{linux}
use sockstats.Conn.Report.{Callback, Probe, is_set, skips, store_info}
use sockstats.Conn.State.{GoError, NetConn, World}
use sockstats.Tcpinfo.Linux.Get.{Error, Sockopts, get_tcp_info, supported}
use sockstats.Tcpinfo.Linux.Get.Outcome.{get_tcp_info-is_some}
use sockstats.Tcpinfo.Linux.Versions.{Cells}

-- An error of pkg/tcpinfo as an error value; its texts are the system's.
abbrev wrap_error : (Error → GoError) → Option Error → Option GoError
wrap_error text none = none
wrap_error text (some e) = some (text e)

-- The probe of a socket on which `GetTCPInfo` finds `k`.
abbrev pub linux_probe :
    (at : Cells) → (Error → GoError) → Option GoError → Option GoError → Sockopts → Probe (linux at)
linux_probe at text syscall_err control_err k = record {
  syscall_err = syscall_err;
  control_err = control_err;
  sys_info = (get_tcp_info at k).0;
  tcp_err = wrap_error text (get_tcp_info at k).1;
}

-- Whether the wrapping gets as far as `Control`.
abbrev pub asks : Cells → NetConn → Option GoError → Bool
asks at ncon syscall_err = supported at && ncon.is_tcp && not (is_set syscall_err)

module _ {C : Type 0} where
  wrapped-asks :
      (at : Cells) (text : Error → GoError) (s e : Option GoError) (k : Sockopts) (ctx : C)
      (ncon : NetConn) (now : ℤ)
      → (let c = wrapped true ctx ncon now (linux_probe at text s e k) in
          (is_set c.opened_info
            ≡ (asks at ncon s && not (is_set e || is_set (get_tcp_info at k).1)))
          × (is_set c.info_err ≡ (asks at ncon s && (is_set e || is_set (get_tcp_info at k).1))))
  unfolding skips store_info
  wrapped-asks at text s e k ctx ncon now = ground (arith, get_tcp_info-is_some at k)

  -- On Linux, with a callback that returns and changes nothing when it finds the lock free: where a
  -- wrapping gets as far as `Control`, it sets either `OpenedInfo` or `InfoErr`, the info if
  -- `Control` and `GetTCPInfo` both give no error, else the error, also where `GetTCPInfo` gives
  -- statistics next to it. Where it does not get there it sets neither.
  pub session-linux :
      (at : Cells) (f : Callback (linux at) C)
      → Watches (some f)
      → (text : Error → GoError) (s e : Option GoError) (k : Sockopts) (ctx : C) (ncon : NetConn)
        (now : ℤ) (w : World (linux at) C)
      → session (some f) ctx ncon now (linux_probe at text s e k) [] ≡ some w
      → (is_set w.conn.opened_info
          ≡ (asks at ncon s && not (is_set e || is_set (get_tcp_info at k).1)))
        × (is_set w.conn.info_err ≡ (asks at ncon s && (is_set e || is_set (get_tcp_info at k).1)))
  session-linux at f h text s e k ctx ncon now w ran =
      let final = session-end (some f) h ctx ncon now (linux_probe at text s e k) [] w ran in
      let set = wrapped-asks at text s e k ctx ncon now in
      (
        ap (λ w. is_set w.conn.opened_info) (sym final) ∙ set.0,
        ap (λ w. is_set w.conn.info_err) (sym final) ∙ set.1,
      )
