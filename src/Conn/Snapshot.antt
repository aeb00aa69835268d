-- ===== src/Conn/Snapshot.antt =====
-- wrap.go: `Warnings` and `ToMap`. Both read the fields under the lock and change nothing.
use sockstats.Common.Int.{pos, ltb_ℤ}
use sockstats.Common.Word.{wrap_64}
use sockstats.Common.Text.{Text, codes, format_int}
use Prim.Native.String.{String}
use sockstats.Common.{Option, none, some, List, [], ◌∷◌, ◌++◌, ltb, if◌then◌else◌}
use sockstats.Conn.Platform.{Platform}
use sockstats.Conn.Report.{is_set}
use sockstats.Conn.State.{World, lock, unlock, GoError, Conn}
use sockstats.Tcpinfo.AnyMap.{
  Value, Fields, end, field, Entry, entry, assign_valid, int, str, texts, obj,
}
use sockstats.Tcpinfo.Info as Info
use sockstats.Tcpinfo.Info.{Info}

-- `err.Error()`, where there is an error.
error_text : Option GoError → Value
error_text none = str ""
error_text (some e) = str e.message

-- `if err != nil { fset[key] = err.Error() }`
unfoldable pub error_entry : String → Option GoError → Entry
unfolding error_text
error_entry key o = entry key (is_set o) (error_text o)

module _ (P : Platform) where
  abbrev pub own_warnings : Info P.SysInfo → P.SysInfo → List Text → List Text
  own_warnings info s warns =
      (if ltb 0 info.retransmits
        then warns ++ (codes "retransmits=" ++ format_int (wrap_64 (pos info.retransmits))) ∷ []
        else warns)
      ++ P.warnings s

  -- The body of the loop over the two pointers. `none`: `Sys` is nil, and the method call on it
  -- panics.
  unfoldable pub info_warnings : Option (Info P.SysInfo) → List Text → Option (List Text)
  info_warnings none warns = some warns
  info_warnings (some info) warns = elim info.sys [
    | none ↦ none
    | some s ↦ some (own_warnings info s warns)
  ]

  info_value : Option (Info P.SysInfo) → Value
  unfolding Info.to_map
  info_value none = obj end
  info_value (some i) = obj (Info.to_map P.to_map i)

  -- `if info != nil { fset[key] = info.ToMap() }`
  unfoldable pub info_entry : String → Option (Info P.SysInfo) → Entry
  unfolding info_value
  info_entry key o = entry key (is_set o) (info_value o)

module _ {P : Platform} {C : Type 0} where
  abbrev pub reconnect_warnings : Conn P C → List Text
  reconnect_warnings c =
      if ltb_ℤ (pos 0) c.reconnects
      then (codes "reconnects=" ++ format_int c.reconnects) ∷ []
      else []

  -- `(*Conn).warnings`
  unfoldable pub warnings : Conn P C → Option (List Text)
  unfolding info_warnings
  warnings c = elim (info_warnings P c.opened_info (reconnect_warnings c)) [
    | none ↦ none
    | some warns ↦ info_warnings P c.closed_info warns
  ]

  -- The literal that `ToMap` begins with.
  unfoldable pub plain_fields : Conn P C → String → String → List Text → Fields
  plain_fields c local remote warns = field "openedAt" (int c.opened_at) (
      field "closedAt" (int c.closed_at) (
        field "firstRxAt" (int c.first_rx_at) (
          field "firstTxAt" (int c.first_tx_at) (
            field "lastRxAt" (int c.last_rx_at) (
              field "lastTxAt" (int c.last_tx_at) (
                field "txBytes" (int c.tx_bytes) (
                  field "rxBytes" (int c.rx_bytes) (
                    field "reconnects" (int c.reconnects) (
                      field "localAddr" (str local) (
                        field "remoteAddr" (str remote)
                          (field "warnings" (texts warns) end)))))))))))

  -- The guarded assignments of `ToMap`, the one that stands there twice as often.
  unfoldable pub optional_fields : Conn P C → List Entry
  unfolding error_entry info_entry
  optional_fields c =
      error_entry "rxErr" c.rx_err
      ∷ error_entry "rxErr" c.rx_err
      ∷ error_entry "txErr" c.tx_err
      ∷ error_entry "infoErr" c.info_err
      ∷ info_entry P "openedInfo" c.opened_info
      ∷ info_entry P "closedInfo" c.closed_info
      ∷ []

  -- The body of `(*Conn).ToMap` under the lock. `String` of an address that is nil panics.
  unfoldable pub fields : Conn P C → Option Fields
  fields c = elim c.conn.local_addr [
    | none ↦ none
    | some local ↦ elim c.conn.remote_addr [
      | none ↦ none
      | some remote ↦ elim (warnings c) [
        | none ↦ none
        | some warns ↦ some (assign_valid (optional_fields c) (plain_fields c local remote warns))
      ]
    ]
  ]

  -- A method that only reads, under the lock.
  abbrev pub reading : {A : Type 0} → (Conn P C → A) → World P C → Option (World P C × A)
  reading f w = elim (lock w) [ none ↦ none | some w₁ ↦ some (unlock w₁, f w₁.conn) ]

  -- `(*Conn).Warnings` and `(*Conn).ToMap`
  unfoldable pub get_warnings : World P C → Option (World P C × Option (List Text))
  unfolding lock unlock
  get_warnings w = reading warnings w

  unfoldable pub to_map : World P C → Option (World P C × Option Fields)
  unfolding lock unlock
  to_map w = reading fields w
