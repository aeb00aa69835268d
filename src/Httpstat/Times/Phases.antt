-- ===== src/Httpstat/Times/Phases.antt =====
-- cmd/httpstat/main.go: the phases of a request and their sum.
use mathlib.Core.Path.{subst}
use sockstats.Common.Int.{ℤ, pos}
use sockstats.Common.Word.{two_63}
use sockstats.Common.{
  ℕ, ◌+◌, ◌-◌, ◌/◌, ◌≤◌, ◌<◌, ◌≡◌, refl, sym, ap, Option, none, some, List, [], ◌∷◌, arith, All,
}
use sockstats.Httpstat.Times.{
  Event, dns_start, dns_done, connect_start, connect_done, got_conn, got_first_response_byte,
  tls_handshake_start, tls_handshake_done, Times, no_times, hook, hooks, settle, sub, millis,
  http_columns,
}

-- What is printed for the time from one instant to a later one.
abbrev pub printed : ℕ → ℕ → ℕ
printed from to = (to - from) / 1000000

millis-sub :
    (from to : ℕ)
    → from ≤ to
    → to < two_63
    → millis (sub (some (pos to)) (some (pos from))) ≡ pos (printed from to)
unfolding sub millis
millis-sub from to h k = ap millis (late from to h k)
  where
    late :
        (from to : ℕ)
        → from ≤ to
        → to < two_63
        → sub (some (pos to)) (some (pos from)) ≡ pos (to - from)
    late from to h k = unfold sub in ground arith

-- The instants of a request whose hooks were called with times that do not go back.
pub record IsTimed (t : Times) (a b e f g : ℕ) : Type 0 where
  pub looking : t.t0 ≡ some (pos a)
  pub found : t.t1 ≡ some (pos b)
  pub got : t.t3 ≡ some (pos e)
  pub answered : t.t4 ≡ some (pos f)
  pub ab : a ≤ b
  pub be : b ≤ e
  pub ef : e ≤ f
  pub fg : f ≤ g
  pub fits : g < two_63

-- Where the hooks of a request over http leave instants t0, t1, t3 and t4 that do not go back, up
-- to the time g behind the body, which is below 2 ^ 63: the columns are the milliseconds from one
-- instant to the next, and then from t0 to each; and the four phases add up to the total but for
-- less than 4 milliseconds, which rounding loses.
pub http_columns-IsTimed :
    (es : List Event) (a b e f g : ℕ)
    → IsTimed (settle (hooks es no_times)) a b e f g
    → (http_columns (settle (hooks es no_times)) (some (pos g))
        ≡ pos (printed a b)
          ∷ pos (printed b e)
          ∷ pos (printed e f)
          ∷ pos (printed f g)
          ∷ pos (printed a b)
          ∷ pos (printed a e)
          ∷ pos (printed a f)
          ∷ pos (printed a g)
          ∷ [])
      × (printed a b + printed b e + printed e f + printed f g ≤ printed a g)
      × (printed a g < printed a b + printed b e + printed e f + printed f g + 4)
unfolding http_columns
http_columns-IsTimed es a b e f g t =
    let ab = millis-sub a b t.ab (omega (arith, t.be, t.ef, t.fg, t.fits)) in
    let be = millis-sub b e t.be (omega (arith, t.ef, t.fg, t.fits)) in
    let ef = millis-sub e f t.ef (omega (arith, t.fg, t.fits)) in
    let fg = millis-sub f g t.fg t.fits in
    let ae = millis-sub a e (omega (arith, t.ab, t.be)) (omega (arith, t.ef, t.fg, t.fits)) in
    let af = millis-sub a f (omega (arith, t.ab, t.be, t.ef)) (omega (arith, t.fg, t.fits)) in
    let ag = millis-sub a g (omega (arith, t.ab, t.be, t.ef, t.fg)) t.fits in
    (
      rw (t.looking, t.found, t.got, t.answered) (rw (ab, be, ef, fg, ae, af, ag) refl),
      omega (arith, t.ab, t.be, t.ef, t.fg),
      omega (arith, t.ab, t.be, t.ef, t.fg),
    )

-- A hook that is not one of the lookup.
abbrev pub IsLater : Event → Type 0
IsLater (dns_start _) = ⊥
IsLater (dns_done _) = ⊥
IsLater _ = Unit

hooks-IsLater :
    (es : List Event) (now : ℤ) (t : Times)
    → All IsLater es
    → t.t0 ≡ none
    → t.t1 ≡ some now
    → ((hooks es t).t0 ≡ none) × ((hooks es t).t1 ≡ some now)
unfolding hooks hook
hooks-IsLater [] now t later h0 h1 = (h0, h1)
hooks-IsLater (dns_start _ ∷ es) now t (never, later) h0 h1 = absurd never
hooks-IsLater (dns_done _ ∷ es) now t (never, later) h0 h1 = absurd never
hooks-IsLater (connect_start n ∷ es) now t (_, later) h0 h1 =
    let same : hook (connect_start n) t ≡ t = keeps t.t1 h1 in
    subst (λ u. ((hooks es u).t0 ≡ none) × ((hooks es u).t1 ≡ some now)) (sym same)
      (hooks-IsLater es now t later h0 h1)
  where
    keeps :
        (o : Option ℤ) → o ≡ some now → elim o [ none ↦ record t { t1 = some n } | some _ ↦ t ] ≡ t
    keeps none e = ground arith
    keeps (some _) e = refl
hooks-IsLater (connect_done n ∷ es) now t (_, later) h0 h1 = hooks-IsLater es now _ later h0 h1
hooks-IsLater (got_conn n ∷ es) now t (_, later) h0 h1 = hooks-IsLater es now _ later h0 h1
hooks-IsLater (got_first_response_byte n ∷ es) now t (_, later) h0 h1 =
    hooks-IsLater es now _ later h0 h1
hooks-IsLater (tls_handshake_start n ∷ es) now t (_, later) h0 h1 =
    hooks-IsLater es now _ later h0 h1
hooks-IsLater (tls_handshake_done n ∷ es) now t (_, later) h0 h1 =
    hooks-IsLater es now _ later h0 h1

-- A host that is an address is not looked up: where the first hook is the start of a connection and
-- no hook of a lookup follows, the lookup counts from that start and to it.
pub settle-connect_start :
    (now : ℤ) (es : List Event)
    → All IsLater es
    → let t = settle (hooks (connect_start now ∷ es) no_times) in
      (t.t0 ≡ some now) × (t.t1 ≡ some now)
unfolding settle hooks hook
settle-connect_start now es later =
    let (h0, h1) = hooks-IsLater es now (record no_times { t1 = some now }) later refl refl in
    rw (h0) (h1, h1)
