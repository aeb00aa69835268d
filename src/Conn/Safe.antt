-- ===== src/Conn/Safe.antt =====
-- wrap.go: whether sessions return, and `ToMap` at the end of one.
use Prim.Native.String.{String}
use mathlib.Core.Path.{subst}
use text.Mathlib.TextEquality.{eq_iff}
use sockstats.Common.Int.{ℤ}
use sockstats.Common.Text.{Text}
use sockstats.Common.{
  ◌≡◌, ◌⊎◌, Option-cases, refl, sym, ◌∙◌, ap, Bool, Bool-cases, inl, inr, true, false, Option, none,
  some, List, [], ◌∷◌, arith,
}
use sockstats.Conn.Effect.{
  Watches, free, after, after_report, after_all, finally, wrapped, session-free,
}
use sockstats.Conn.History.{session-end}
use sockstats.Conn.Methods.{Call, read_of, write_of, set_reconnects_of, close_of, session}
use sockstats.Conn.Platform.{Platform}
use sockstats.Conn.Report.{Callback, Probe, opened, closed, is_set, store_info, fresh}
use sockstats.Conn.Snapshot.{
  info_warnings, own_warnings, warnings, reconnect_warnings, fields, to_map, optional_fields,
  plain_fields, error_entry, info_entry,
}
use sockstats.Conn.State.{
  GoError, NetConn, Conn, Report, World, lock, unlock, track_read, track_write,
}
use sockstats.Tcpinfo.AnyMap.{
  Value, str, obj, Fields, end, field, assign, lookup, Entry, assign_valid,
}
use sockstats.Tcpinfo.AnyMap.Lookup.{
  Distinct, Absent, given, lookup-assign_valid, lookup-assign_valid_ne,
}
use sockstats.Tcpinfo.Info as Info
use sockstats.Tcpinfo.Info.{Info}

module _ {P : Platform} {C : Type 0} where
  -- With no callback, or one that returns and changes nothing when it finds the lock free: a
  -- session always returns, and in the end the lock is free. So no method takes the lock that it
  -- holds, and none calls the callback while it holds it.
  pub session-returns :
      (r : Option (Callback P C))
      → Watches r
      → (ctx : C) (ncon : NetConn) (now : ℤ) (probe : Probe P) (os : List (Call P))
      → (w : World P C) × (session r ctx ncon now probe os ≡ some w) × (w.locked ≡ false)
  session-returns r h ctx ncon now probe os = (_, session-free r h ctx ncon now probe os, refl)

module _ (P : Platform) where
  abbrev pub sys_set : Option (Info P.SysInfo) → Bool
  sys_set none = true
  sys_set (some i) = is_set i.sys

  info_warnings-some :
      (i : Option (Info P.SysInfo)) (ws : List Text)
      → sys_set i ≡ true
      → (ws' : List Text) × (info_warnings P i ws ≡ some ws')
  unfolding info_warnings
  info_warnings-some none ws h = (ws, refl)
  info_warnings-some (some i) ws h = go i.sys refl
    where
      go :
          (o : Option P.SysInfo)
          → i.sys ≡ o
          → (ws' : List Text) × (info_warnings P (some i) ws ≡ some ws')
      go none e = ground (arith, e, h)
      go (some s) e = (own_warnings P i s ws, rw (e, info_warnings))

module _ {P : Platform} {C : Type 0} where
  -- No info that the connection holds has a nil `Sys`, and it gathers where the platform can.
  abbrev pub HasSys : Conn P C → Type 0
  HasSys c =
      (sys_set P c.opened_info ≡ true)
      × (sys_set P c.closed_info ≡ true)
      × (c.supports_tcp_info ≡ P.supported)

  store_info-HasSys :
      (state : _) (probe : Probe P) (c : Conn P C)
      → P.supported ≡ true
      → HasSys c
      → HasSys (store_info state probe c)
  unfolding store_info
  store_info-HasSys state probe c can h = go probe.sys_info refl
    where
      go : (o : Option P.SysInfo) → probe.sys_info ≡ o → HasSys (store_info state probe c)
      go none e = ground (arith, e, h)
      go (some s) e = ground (arith, e, h, P.to_info-sys can s)

  pub after_report-HasSys :
      (b : Bool) (state : _) (probe : Probe P) (c : Conn P C)
      → HasSys c
      → HasSys (after_report b state probe c)
  after_report-HasSys b state probe c h = elim (Bool-cases c.supports_tcp_info) [
    | inl can ↦
        let stored = store_info-HasSys state probe c (sym h.2 ∙ can) h in ground (arith, stored)
    | inr cannot ↦ ground (arith, h, cannot)
  ]

  after-HasSys : (b : Bool) (o : Call P) (c : Conn P C) → HasSys c → HasSys (after b o c)
  unfolding track_read track_write
  after-HasSys b (read_of n err ts) c h = ground arith
  after-HasSys b (write_of n err ts) c h = ground arith
  after-HasSys b (set_reconnects_of r) c h = h
  after-HasSys b (close_of ts probe err) c h =
      after_report-HasSys b closed probe (record c { closed_at = ts }) h

  after_all-HasSys :
      (b : Bool) (os : List (Call P)) (c : Conn P C) → HasSys c → HasSys (after_all b os c)
  after_all-HasSys b [] c h = h
  after_all-HasSys b (o ∷ os) c h = after_all-HasSys b os _ (after-HasSys b o c h)

  pub warnings-some : (c : Conn P C) → HasSys c → (ws : List Text) × (warnings c ≡ some ws)
  unfolding warnings
  warnings-some c (h, k, _) =
      let (ws, e) = info_warnings-some P c.opened_info (reconnect_warnings c) h in
      let (ws', e') = info_warnings-some P c.closed_info ws k in (ws', rw (e, warnings, e'))

  pub fields-some :
      (c : Conn P C) (local remote : String)
      → HasSys c
      → c.conn.local_addr ≡ some local
      → c.conn.remote_addr ≡ some remote
      → (ws : List Text) × (fields c
          ≡ some (assign_valid (optional_fields c) (plain_fields c local remote ws)))
  unfolding fields optional_fields warnings-some plain_fields
  fields-some c local remote h l r =
      let (ws, e) = warnings-some c h in (ws, rw (l, fields, r, e) refl)

  -- No call changes the underlying connection.
  after_report-conn :
      (b : Bool) (state : _) (probe : Probe P) (c : Conn P C)
      → (after_report b state probe c).conn ≡ c.conn
  unfolding store_info
  after_report-conn b state probe c = ground arith

  after-conn : (b : Bool) (o : Call P) (c : Conn P C) → (after b o c).conn ≡ c.conn
  unfolding track_read track_write
  after-conn b (read_of n err ts) c = ground arith
  after-conn b (write_of n err ts) c = ground arith
  after-conn b (set_reconnects_of r) c = refl
  after-conn b (close_of ts probe err) c =
      after_report-conn b closed probe (record c { closed_at = ts })

  after_all-conn : (b : Bool) (os : List (Call P)) (c : Conn P C) → (after_all b os c).conn ≡ c.conn
  after_all-conn b [] c = refl
  after_all-conn b (o ∷ os) c = after_all-conn b os (after b o c) ∙ after-conn b o c

  pub finally-conn :
      (b : Bool) (ctx : C) (ncon : NetConn) (now : ℤ) (probe : Probe P) (os : List (Call P))
      → (finally b ctx ncon now probe os).conn ≡ ncon
  finally-conn b ctx ncon now probe os =
      after_all-conn b os (wrapped b ctx ncon now probe)
      ∙ after_report-conn b opened probe (fresh ctx ncon now).conn

  wrapped-HasSys :
      (b : Bool) (ctx : C) (ncon : NetConn) (now : ℤ) (probe : Probe P)
      → HasSys (wrapped b ctx ncon now probe)
  wrapped-HasSys b ctx ncon now probe = after_report-HasSys b opened probe _ (refl, refl, refl)

  pub session-HasSys :
      (r : Option (Callback P C))
      → Watches r
      → (ctx : C) (ncon : NetConn) (now : ℤ) (probe : Probe P) (os : List (Call P)) (w : World P C)
      → session r ctx ncon now probe os ≡ some w
      → HasSys w.conn
  session-HasSys r h ctx ncon now probe os w e =
      subst (λ w. HasSys w.conn) (session-end r h ctx ncon now probe os w e)
        (after_all-HasSys (is_set r) os _ (wrapped-HasSys (is_set r) ctx ncon now probe))

-- Setting the same key to the same value again changes nothing.
assign-assign : (k : String) (v : Value) (m : Fields) → assign k v (assign k v m) ≡ assign k v m
unfolding assign
assign-assign k v end = ground (arith, eq_iff k k)
assign-assign k v (field j w m) = ground (arith, eq_iff k k, eq_iff j k, assign-assign k v m)

assign_valid-twice :
    (e : Entry) (es : List Entry) (m : Fields)
    → assign_valid (e ∷ e ∷ es) m ≡ assign_valid (e ∷ es) m
unfolding assign_valid
assign_valid-twice e es m = go e.valid refl
  where
    go : (b : Bool) → e.valid ≡ b → assign_valid (e ∷ e ∷ es) m ≡ assign_valid (e ∷ es) m
    go true h = rw (h, assign_valid, assign-assign e.key e.value m)
    go false h = rw (h, assign_valid)

-- The text of an error, where there is one.
abbrev pub text_of : Option GoError → Option Value
text_of none = none
text_of (some e) = some (str e.message)

given-text : (key : String) (o : Option GoError) → given (error_entry key o) ≡ text_of o
unfolding error_entry
given-text key none = refl
given-text key (some e) = refl

module _ (P : Platform) where
  -- The map of an info, where there is one.
  abbrev pub map_of : Option (Info P.SysInfo) → Option Value
  unfolding Info.to_map
  map_of none = none
  map_of (some i) = some (obj (Info.to_map P.to_map i))

  given-map : (key : String) (o : Option (Info P.SysInfo)) → given (info_entry P key o) ≡ map_of o
  unfolding info_entry
  given-map key none = refl
  given-map key (some i) = refl

module _ {P : Platform} {C : Type 0} where
  -- The entries that `ToMap` sets where there is something to set, each once.
  abbrev set_fields : Conn P C → List Entry
  set_fields c =
      error_entry "rxErr" c.rx_err
      ∷ error_entry "txErr" c.tx_err
      ∷ error_entry "infoErr" c.info_err
      ∷ info_entry P "openedInfo" c.opened_info
      ∷ info_entry P "closedInfo" c.closed_info
      ∷ []

  set_fields-Distinct : (c : Conn P C) → Distinct (set_fields c)
  unfolding error_entry info_entry
  set_fields-Distinct c = ground arith

  set_fields-Absent :
      (c : Conn P C) (local remote : String) (ws : List Text)
      → Absent (plain_fields c local remote ws) (set_fields c)
  unfolding error_entry info_entry plain_fields lookup
  set_fields-Absent c local remote ws = ground arith

  to_map-free :
      (c : Conn P C) (rs : List (Report P C)) → to_map (free c rs) ≡ some (free c rs, fields c)
  unfolding to_map lock unlock
  to_map-free c rs = refl

  -- What the map of a connection holds under its optional keys and under those of the addresses.
  abbrev pub Keys : Conn P C → Option Fields → Type 0
  Keys c none = (c.conn.local_addr ≡ none) ⊎ (c.conn.remote_addr ≡ none)
  Keys c (some m) =
      (lookup "rxErr" m ≡ text_of c.rx_err)
      × (lookup "txErr" m ≡ text_of c.tx_err)
      × (lookup "infoErr" m ≡ text_of c.info_err)
      × (lookup "openedInfo" m ≡ map_of P c.opened_info)
      × (lookup "closedInfo" m ≡ map_of P c.closed_info)
      × ((local : String) × (c.conn.local_addr ≡ some local)
          × (lookup "localAddr" m ≡ some (str local)))
      × ((remote : String) × (c.conn.remote_addr ≡ some remote)
          × (lookup "remoteAddr" m ≡ some (str remote)))

  made-Keys :
      (c : Conn P C) (local remote : String) (ws : List Text)
      → c.conn.local_addr ≡ some local
      → c.conn.remote_addr ≡ some remote
      → Keys c (some (assign_valid (optional_fields c) (plain_fields c local remote ws)))
  unfolding optional_fields error_entry info_entry plain_fields lookup
  made-Keys c local remote ws l r =
      let (rx, (tx, (info, (opening, (closing, _))))) =
        lookup-assign_valid (set_fields c) (plain_fields c local remote ws) (set_fields-Distinct c)
          (set_fields-Absent c local remote ws) in
      let once : assign_valid (optional_fields c) (plain_fields c local remote ws)
          ≡ assign_valid (set_fields c) (plain_fields c local remote ws) =
        assign_valid-twice (error_entry "rxErr" c.rx_err) _ _ in
      (
        ap (lookup "rxErr") once ∙ rx ∙ given-text "rxErr" c.rx_err,
        ap (lookup "txErr") once ∙ tx ∙ given-text "txErr" c.tx_err,
        ap (lookup "infoErr") once ∙ info ∙ given-text "infoErr" c.info_err,
        ap (lookup "openedInfo") once ∙ opening ∙ given-map P "openedInfo" c.opened_info,
        ap (lookup "closedInfo") once ∙ closing ∙ given-map P "closedInfo" c.closed_info,
        (
          local,
          l,
          lookup-assign_valid_ne "localAddr" (optional_fields c) (plain_fields c local remote ws)
              (refl, (refl, (refl, (refl, (refl, (refl, tt)))))),
        ),
        (
          remote,
          r,
          lookup-assign_valid_ne "remoteAddr" (optional_fields c) (plain_fields c local remote ws)
              (refl, (refl, (refl, (refl, (refl, (refl, tt)))))),
        ),
      )

  fields-Keys : (c : Conn P C) → HasSys c → (o : Option Fields) × (fields c ≡ o) × Keys c o
  unfolding fields
  fields-Keys c h = elim (Option-cases c.conn.local_addr) [
    | inl nil ↦ (none, rw (nil, fields) refl, inl nil)
    | inr (local, l) ↦ elim (Option-cases c.conn.remote_addr) [
      | inl nil ↦ (none, rw (l, fields, nil) refl, inr nil)
      | inr (remote, r) ↦
          let (ws, made) = fields-some c local remote h l r in
          (_, made, made-Keys c local remote ws l r)
    ]
  ]

  -- With no callback, or one that returns and changes nothing when it finds the lock free: at the
  -- end of a session, `ToMap` gets the lock and changes nothing. It panics exactly if an address of
  -- the underlying connection is nil; a `Sys` that is nil never makes it panic. Else its map has each
  -- of the keys "rxErr", "txErr" and "infoErr" exactly if that error is not nil, with the text of
  -- it, each of "openedInfo" and "closedInfo" exactly if that info is not nil, with the map of it,
  -- and the texts of the addresses.
  pub session-fields :
      (r : Option (Callback P C))
      → Watches r
      → (ctx : C) (ncon : NetConn) (now : ℤ) (probe : Probe P) (os : List (Call P)) (w : World P C)
      → session r ctx ncon now probe os ≡ some w
      → (w.conn.conn ≡ ncon) × ((o : Option Fields) × (to_map w ≡ some (w, o)) × Keys w.conn o)
  session-fields r h ctx ncon now probe os w e =
      let (o, made, keys) = fields-Keys w.conn (session-HasSys r h ctx ncon now probe os w e) in
      let same = session-end r h ctx ncon now probe os w e in
      let got : to_map w ≡ some (w, fields w.conn) =
        subst (λ w. to_map w ≡ some (w, fields w.conn)) same (to_map-free _ _) in
      (
        sym (ap (λ w. w.conn.conn) same) ∙ finally-conn (is_set r) ctx ncon now probe os,
        (o, got ∙ ap (λ o. some (w, o)) made, keys),
      )
