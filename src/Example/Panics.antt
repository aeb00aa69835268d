-- ===== src/Example/Panics.antt =====
-- cmd/get/main.go: when the callback panics.
use mathlib.Core.Path.{subst}
use sockstats.Common.Int.{ℤ}
use sockstats.Common.{◌≡◌, refl, ◌∙◌, Bool, true, false, ◌&&◌, Option, none, some, List, ◌∷◌, arith}
use sockstats.Conn.Effect.{free, gathered, gather-free, after_report}
use sockstats.Conn.Methods.{close}
use sockstats.Conn.Platform.{Platform}
use sockstats.Conn.Report.{
  Callback, Probe, closed, is_set, skips, report, store_info, gather_and_report,
}
use sockstats.Conn.Safe.{HasSys, after_report-HasSys, warnings-some}
use sockstats.Conn.Snapshot.{get_warnings}
use sockstats.Conn.State.{GoError, Conn, Report, World, critical, lock, unlock}
use sockstats.Example.{Prints, print_closed, print_stats, world_after}

abbrev pub is_none {ℓ} : {A : Type ℓ} → Option A → Bool
is_none none = true
is_none (some _) = false

module _ {P : Platform} {C : Type 0} where
  abbrev pub has_addrs : Conn P C → Bool
  has_addrs c = is_set c.conn.local_addr && is_set c.conn.remote_addr

  -- The callback returns exactly if both infos and both addresses are there.
  print_closed-free :
      (p : Prints P C) (c : Conn P C) (rs : List (Report P C))
      → HasSys c
      → is_set (world_after (print_closed p (free c rs)))
        ≡ ((is_set c.opened_info && is_set c.closed_info) && has_addrs c)
  unfolding print_closed get_warnings lock unlock
  print_closed-free p c rs h = let (ws, warned) = warnings-some c h in ground (arith, warned)

  -- The closing can gather: the platform is supported and nothing failed, neither before nor now.
  abbrev pub gathers : Probe P → Conn P C → Bool
  gathers probe c =
      c.supports_tcp_info
      && is_none c.info_err
      && c.conn.is_tcp
      && is_none probe.syscall_err
      && is_none probe.control_err
      && is_none probe.tcp_err
      && is_set probe.sys_info

  gathered-infos :
      (probe : Probe P) (c : Conn P C)
      → c.closed_info ≡ none
      → ((gathered closed probe c).opened_info ≡ c.opened_info)
        × (is_set (gathered closed probe c).closed_info ≡ gathers probe c)
        × ((gathered closed probe c).conn ≡ c.conn)
  unfolding store_info
  gathered-infos probe c h = (ground arith, ground arith, ground arith)

  gathered-HasSys :
      (probe : Probe P) (c : Conn P C)
      → c.closed_info ≡ none
      → HasSys c
      → HasSys (gathered closed probe c)
  unfolding skips
  gathered-HasSys probe c h sys =
      subst HasSys (reporting h) (after_report-HasSys true closed probe c sys)
    where
      reporting : c.closed_info ≡ none → after_report true closed probe c ≡ gathered closed probe c
      reporting e = rw e

  -- `gatherAndReport` where it does not return early, whatever the callback does.
  gather_and_report-reports :
      (f : Callback P C) (probe : Probe P) (c : Conn P C) (rs : List (Report P C))
      → skips closed c ≡ false
      → let c' = gathered closed probe c in
        gather_and_report (some f) closed probe (free c rs)
        ≡ f closed (free c' (record { state = closed; seen = c' } ∷ rs))
  unfolding gather_and_report report
  gather_and_report-reports f probe c rs e = rw (e, gather-free closed probe c rs)

  close-is_set :
      (f : Callback P C) (ts : ℤ) (probe : Probe P) (e : Option GoError) (c : Conn P C)
      (rs : List (Report P C)) (o : Option (World P C))
      → gather_and_report (some f) closed probe (free (record c { closed_at = ts }) rs) ≡ o
      → is_set (close (some f) ts probe e (free c rs)) ≡ is_set o
  unfolding close critical lock unlock
  close-is_set f ts probe e c rs none h = rw (h) refl
  close-is_set f ts probe e c rs (some w) h = rw (h) refl

  -- On a connection whose lock is free and that has no ClosedInfo yet, as any is ahead of its first
  -- closing: a `Close` with the callback of the example returns exactly if OpenedInfo is set, the
  -- closing can gather, and no address of the underlying connection is nil. Else the callback
  -- panics: so it does for every connection that is no TCP connection, on a platform that is not
  -- supported, and after a failed gathering.
  pub close-print_stats :
      (p : Prints P C) (ts : ℤ) (probe : Probe P) (e : Option GoError) (c : Conn P C)
      (rs : List (Report P C))
      → HasSys c
      → c.closed_info ≡ none
      → is_set (close (some (print_stats p)) ts probe e (free c rs))
        ≡ ((is_set c.opened_info && gathers probe c) && has_addrs c)
  unfolding skips print_stats
  close-print_stats p ts probe e c rs sys unset =
      let c₁ = record c { closed_at = ts } in
      let not_skipped : skips closed c₁ ≡ false = ground arith in
      let (same, closes, kept) = gathered-infos probe c₁ unset in
      close-is_set (print_stats p) ts probe e c rs _
        (gather_and_report-reports (print_stats p) probe c₁ rs not_skipped)
      ∙ print_closed-free p (gathered closed probe c₁) _ (gathered-HasSys probe c₁ unset sys)
      ∙ (λ i.
          (is_set (same i) && closes i)
          && (is_set (kept i).local_addr && is_set (kept i).remote_addr))
