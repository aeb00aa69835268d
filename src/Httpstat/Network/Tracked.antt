-- ===== src/Httpstat/Network/Tracked.antt =====
-- cmd/httpstat/main.go: each connection of the dialer is what its own calls make of it, and
-- `connConn` points to one that was closed.
use mathlib.Core.List.{append-nil}
use mathlib.Core.Option.{some-injective}
use mathlib.Core.Path.{subst}
use sockstats.Common.Int.{ℤ}
use sockstats.Common.{
  ℕ, ◌≤◌, ◌<◌, ◌≡◌, refl, sym, ap, ◌∙◌, ◌⊎◌, inl, inr, true, false, ◌&&◌, Option, none, some, List,
  [], ◌∷◌, ◌++◌, ◌==◌, ltb, if◌then◌else◌, ok, err, get_elem?, length, length-append, put,
  get_elem?-put_same, get_elem?-put_other, get_elem?-append_last, get_elem?-lt-length,
  get_elem?-none-le, length-put, arith, Bool-cases, Option-cases,
}
use sockstats.Conn.Effect.{free, after, finally, reported, call-free, wrapped, new_report}
use sockstats.Conn.Methods.{Call, read_of, write_of, set_reconnects_of, close_of}
use sockstats.Conn.Platform.{Platform}
use sockstats.Conn.Report.{Probe, opened, fresh, skips}
use sockstats.Conn.Reports.{closes}
use sockstats.Conn.State.{GoError, Conn, Report, World}
use sockstats.Httpstat.Network.{
  Net, Dialed, net_conn, nil_conn, no_conns, Event, dialed, called, watch, heard, dial_context,
  step, run,
}
use sockstats.Httpstat.Network.Events.{
  dials, calls_on, Made, Tracked, watch-Watches, calls_on-nil, after_all-append, closes-append,
  no_conns-Tracked, wrap-free, heard-opened,
}

module _ {P : Platform} where
  -- A dialing leaves the calls of the connections that are there already alone.
  dialed-Tracked :
      (conn : Dialed) (now : ℤ) (probe : Probe P) (rs : List (Report P (Unit {0})))
      (es : List (Event P)) (net : Net P)
      → Tracked es net
      → Tracked (dialed (ok conn) now probe ∷ es) (record net {
        conns = net.conns ++ (free (wrapped true tt (net_conn conn) now probe) rs ∷ []);
      })
  dialed-Tracked conn now probe rs es net t = record {
    dialed_all = omega (
      arith,
      length-append net.conns (free (wrapped true tt (net_conn conn) now probe) rs ∷ []),
      t.dialed_all,
    );
    made = λ i w e. elim (get_elem?-append_last net.conns i _ w e) [
      | inl old ↦ t.made i w old
      | inr (last, same) ↦
          let none_yet = calls_on-nil i es (omega (arith, t.dialed_all, last)) in
          (
            conn,
            now,
            probe,
            rs,
            sym same
                ∙ ap (λ os. free (finally true tt (net_conn conn) now probe os) rs) (sym none_yet),
          )
    ];
    closed_one = λ i e. (omega (arith, (t.closed_one i e).0), (t.closed_one i e).1);
  }

  kept-Tracked :
      (e : GoError) (now : ℤ) (probe : Probe P) (es : List (Event P)) (net : Net P)
      → Tracked es net
      → Tracked (dialed (err e) now probe ∷ es) net
  kept-Tracked e now probe es net t = record {
    dialed_all = t.dialed_all;
    made = t.made;
    closed_one = t.closed_one;
  }

  -- Reports of a call set the pointer only where the call closes.
  heard-reported :
      (i j : ℕ) (o : Call P) (c : Conn P (Unit {0})) (g : Option ℕ)
      → heard i (reported true o c ++ []) g ≡ some j
      → (g ≡ some j) ⊎ ((i ≡ j) × (closes (o ∷ []) ≡ 1))
  unfolding skips
  heard-reported i j (read_of _ _ _) c g h = inl h
  heard-reported i j (write_of _ _ _) c g h = inl h
  heard-reported i j (set_reconnects_of _) c g h = inl h
  heard-reported i j (close_of ts probe e) c g h = ground arith

  calls_on-called_same :
      (j : ℕ) (o : Call P) (es : List (Event P))
      → j < dials es
      → calls_on j (called j o ∷ es) ≡ calls_on j es ++ (o ∷ [])
  calls_on-called_same j o es h = ground arith

  calls_on-called_other :
      (i j : ℕ) (o : Call P) (es : List (Event P))
      → (j == i) ≡ false
      → calls_on i (called j o ∷ es) ≡ calls_on i es
  calls_on-called_other i j o es h =
      ap (λ b. calls_on i es ++ (if b && ltb i (dials es) then o ∷ [] else [])) h
      ∙ append-nil (calls_on i es)

  closes-called :
      (i j : ℕ) (o : Call P) (es : List (Event P))
      → closes (calls_on i es) ≤ closes (calls_on i (called j o ∷ es))
  closes-called i j o es = omega (arith, closes-append (calls_on i es) _)

  -- No connection stands there, and the call is none.
  missed-Tracked :
      (j : ℕ) (o : Call P) (es : List (Event P)) (net : Net P)
      → get_elem? net.conns j ≡ none
      → Tracked es net
      → Tracked (called j o ∷ es) net
  missed-Tracked j o es net gone t = record {
    dialed_all = t.dialed_all;
    made = λ i w e.
        let here = get_elem?-lt-length net.conns i w e in
        let gone_from = get_elem?-none-le net.conns j gone in
        let (conn, now, probe, rs, same) = t.made i w e in
        (
          conn,
          now,
          probe,
          rs,
          same
              ∙ ap (λ os. free (finally true tt (net_conn conn) now probe os) rs)
                  (sym (calls_on-called_other i j o es (ground arith))),
        );
    closed_one =
        λ i e. ((t.closed_one i e).0, omega (arith, (t.closed_one i e).1, closes-called i j o es));
  }

  module _ (j : ℕ) (o : Call P) (es : List (Event P)) (net : Net P) (c : Conn P (Unit {0}))
      (rs : List (Report P (Unit {0}))) (t : Tracked es net)
      (at : get_elem? net.conns j ≡ some (free c rs)) where
    abbrev next : Net P
    next = record {
      conns = put net.conns j (free (after true o c) (reported true o c ++ []));
      conn_conn = heard j (reported true o c ++ []) net.conn_conn;
    }

    there : j < dials es
    there = omega (arith, get_elem?-lt-length net.conns j (free c rs) at, t.dialed_all)

    made_same :
        (w : World P (Unit {0})) → get_elem? next.conns j ≡ some w → Made (called j o ∷ es) j w
    made_same w e =
        let (conn, now, probe, _, same) = t.made j (free c rs) at in
        let now_called : finally true tt (net_conn conn) now probe (calls_on j (called j o ∷ es))
            ≡ after true o c =
          ap (finally true tt (net_conn conn) now probe) (calls_on-called_same j o es there)
          ∙ after_all-append (calls_on j es) o (wrapped true tt (net_conn conn) now probe)
          ∙ ap (λ w. after true o w.conn) (sym same) in
        (
          conn,
          now,
          probe,
          reported true o c ++ [],
          some-injective _ _ (sym e ∙ get_elem?-put_same net.conns j (free c rs) _ at)
              ∙ ap (λ c'. free c' (reported true o c ++ [])) (sym now_called),
        )

    made_other :
        (i : ℕ) (w : World P (Unit {0}))
        → (j == i) ≡ false
        → get_elem? next.conns i ≡ some w
        → Made (called j o ∷ es) i w
    made_other i w h e =
        let (conn, now, probe, rs', same) =
          t.made i w (sym (get_elem?-put_other net.conns j i _ h) ∙ e) in
        (
          conn,
          now,
          probe,
          rs',
          same
              ∙ ap (λ os. free (finally true tt (net_conn conn) now probe os) rs')
                  (sym (calls_on-called_other i j o es h)),
        )

    called-Tracked : Tracked (called j o ∷ es) next
    called-Tracked = record {
      dialed_all = length-put net.conns j _ ∙ t.dialed_all;
      made = λ i w e. elim (Bool-cases (j == i)) [
        | inl h ↦
            subst (λ i. get_elem? next.conns i ≡ some w → Made (called j o ∷ es) i w)
              (same_place i h) (made_same w) e
        | inr h ↦ made_other i w h e
      ];
      closed_one = λ i e. elim (heard-reported j i o c net.conn_conn e) [
        | inl before ↦ (
          (t.closed_one i before).0,
          omega (arith, (t.closed_one i before).1, closes-called i j o es),
        )
        | inr (same, one) ↦
            subst (λ i. (i < dials es) × (0 < closes (calls_on i (called j o ∷ es)))) same
              (
                there,
                omega (
                  arith,
                  ap closes (calls_on-called_same j o es there),
                  closes-append (calls_on j es) (o ∷ []),
                  one,
                ),
              )
      ];
    }
      where
        same_place : (i : ℕ) → (j == i) ≡ true → j ≡ i
        same_place i h = ground arith

  step-Tracked :
      (e : Event P) (es : List (Event P)) (net : Net P)
      → Tracked es net
      → (net' : Net P) × (step e net ≡ some net') × Tracked (e ∷ es) net'
  unfolding step dial_context
  step-Tracked (dialed (ok conn) now probe) es net t = (
    record net {
      conns =
          net.conns
          ++ (free (wrapped true tt (net_conn conn) now probe)
                (new_report true opened probe (fresh tt (net_conn conn) now).conn ++ [])
              ∷ []);
    },
    rw (
      wrap-free (net_conn conn) now probe,
      step,
      dial_context,
      heard-opened (length net.conns) (net_conn conn) now probe net.conn_conn,
    ),
    dialed-Tracked conn now probe _ es net t,
  )
  step-Tracked (dialed (err e) now probe) es net t = (
    net,
    rw (
      wrap-free nil_conn now probe,
      step,
      dial_context,
      heard-opened (length net.conns) nil_conn now probe net.conn_conn,
    ),
    kept-Tracked e now probe es net t,
  )
  step-Tracked (called j o) es net t = elim (Option-cases (get_elem? net.conns j)) [
    | inl gone ↦ (net, rw (gone, step), missed-Tracked j o es net gone t)
    | inr (w, at) ↦
        let (conn, now, probe, rs, same) = t.made j w at in
        let at' = at ∙ ap some same in
        (
          next j o es net (finally true tt (net_conn conn) now probe (calls_on j es)) rs t at',
          rw (at', step, call-free (some watch) watch-Watches o),
          called-Tracked j o es net (finally true tt (net_conn conn) now probe (calls_on j es)) rs t
              at',
        )
  ]

  -- Events can always take place, one after the other.
  pub run-Tracked : (es : List (Event P)) → (net : Net P) × (run es ≡ some net) × Tracked es net
  unfolding run
  run-Tracked [] = (no_conns, refl, no_conns-Tracked)
  run-Tracked (e ∷ es) =
      let (net, ran, t) = run-Tracked es in
      let (net', stepped, t') = step-Tracked e es net t in (net', rw (ran, run) stepped, t')
