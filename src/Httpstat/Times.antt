-- ===== src/Httpstat/Times.antt =====
-- cmd/httpstat/main.go: the instants that `visit` takes and the durations that it prints. A time is
-- a count of nanoseconds, and `none` is the zero `time.Time`.
pub mod Phases
use sockstats.Common.Int.{ℤ, pos, negsuc, sub_ℕ, ltb_ℤ, pos_part, neg_part}
use sockstats.Common.Word.{two_63}
use sockstats.Common.{ℕ, suc, ◌+◌, ◌-◌, ◌*◌, ◌/◌, Option, none, some, List, [], ◌∷◌, if◌then◌else◌}

-- The calls of the hooks of `trace`, at their times; that of `ConnectDone` without an error, as
-- with an error the program ends.
pub data Event : Type 0 where
  dns_start : ℤ → Event
  dns_done : ℤ → Event
  connect_start : ℤ → Event
  connect_done : ℤ → Event
  got_conn : ℤ → Event
  got_first_response_byte : ℤ → Event
  tls_handshake_start : ℤ → Event
  tls_handshake_done : ℤ → Event

-- The variables t0 to t6.
pub record Times : Type 0 where
  pub t0 : Option ℤ
  pub t1 : Option ℤ
  pub t2 : Option ℤ
  pub t3 : Option ℤ
  pub t4 : Option ℤ
  pub t5 : Option ℤ
  pub t6 : Option ℤ

abbrev pub no_times : Times
no_times = record { t0 = none; t1 = none; t2 = none; t3 = none; t4 = none; t5 = none; t6 = none }

-- One hook.
unfoldable pub hook : Event → Times → Times
hook (dns_start now) t = record t { t0 = some now }
hook (dns_done now) t = record t { t1 = some now }
hook (connect_start now) t = elim t.t1 [ none ↦ record t { t1 = some now } | some _ ↦ t ]
hook (connect_done now) t = record t { t2 = some now }
hook (got_conn now) t = record t { t3 = some now }
hook (got_first_response_byte now) t = record t { t4 = some now }
hook (tls_handshake_start now) t = record t { t5 = some now }
hook (tls_handshake_done now) t = record t { t6 = some now }

unfoldable pub hooks : List Event → Times → Times
unfolding hook
hooks [] t = t
hooks (e ∷ es) t = hooks es (hook e t)

-- `if t0.IsZero() { t0 = t1 }`
unfoldable pub settle : Times → Times
settle t = elim t.t0 [ none ↦ record t { t0 = t.t1 } | some _ ↦ t ]

-- The zero time, which is the start of the year 1, on the same clock.
abbrev pub instant : Option ℤ → ℤ
instant none = negsuc (62135596800000000000 - 1)
instant (some t) = t

-- `a.Sub(b)`: the difference, kept between the least and the greatest duration.
unfoldable pub sub : Option ℤ → Option ℤ → ℤ
sub a b =
    let x = instant a in
    let y = instant b in
    let d = sub_ℕ (pos_part x + neg_part y) (pos_part y + neg_part x) in
    if ltb_ℤ (pos (two_63 - 1)) d
    then pos (two_63 - 1)
    else if ltb_ℤ d (negsuc (two_63 - 1))
    then negsuc (two_63 - 1)
    else d

-- `int(d / time.Millisecond)`, which is rounded to zero.
unfoldable pub millis : ℤ → ℤ
millis (pos n) = pos (n / 1000000)
millis (negsuc n) = sub_ℕ 0 (suc n / 1000000)

-- The milliseconds that are printed under the two templates, in their order; `t7` is the time
-- behind the body.
unfoldable pub http_columns : Times → Option ℤ → List ℤ
http_columns t t7 =
    millis (sub t.t1 t.t0)
    ∷ millis (sub t.t3 t.t1)
    ∷ millis (sub t.t4 t.t3)
    ∷ millis (sub t7 t.t4)
    ∷ millis (sub t.t1 t.t0)
    ∷ millis (sub t.t3 t.t0)
    ∷ millis (sub t.t4 t.t0)
    ∷ millis (sub t7 t.t0)
    ∷ []

unfoldable pub https_columns : Times → Option ℤ → List ℤ
https_columns t t7 =
    millis (sub t.t1 t.t0)
    ∷ millis (sub t.t2 t.t1)
    ∷ millis (sub t.t6 t.t5)
    ∷ millis (sub t.t4 t.t3)
    ∷ millis (sub t7 t.t4)
    ∷ millis (sub t.t1 t.t0)
    ∷ millis (sub t.t2 t.t0)
    ∷ millis (sub t.t3 t.t0)
    ∷ millis (sub t.t4 t.t0)
    ∷ millis (sub t7 t.t0)
    ∷ []
