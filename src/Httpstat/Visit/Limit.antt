-- ===== src/Httpstat/Visit/Limit.antt =====
-- cmd/httpstat/main.go: `visit` comes to an end.
use sockstats.Common.Text.{Text}
use sockstats.Common.{
  ℕ, zero, suc, ◌+◌, ◌≤◌, ◌<◌, ◌≡◌, refl, sym, ap, Bool, true, false, ◌&&◌, Option, some, List, [],
  ◌∷◌, Result, ok, err, ltb, length, arith, Bool-cases, inl, inr,
}
use sockstats.Httpstat.Request.{Url}
use sockstats.Httpstat.Response.{Response, is_redirect}
use sockstats.Httpstat.Visit.{
  Location, location, no_location, bad_location, Env, max_redirects, Ending, answered, nowhere,
  fatal, too_many, Trace, then_visit, follow, go_on, visit,
}

abbrev pub is_too_many : Ending → Bool
is_too_many too_many = true
is_too_many _ = false

-- The visits are at most so many, and as many as that where they end with too many redirects.
abbrev Bounded : ℕ → Option Trace → Type 0
Bounded k o =
    (urls : List Url) × (ending : Ending) × (o ≡ some (urls, ending))
    × (0 < length urls)
    × (length urls ≤ k)
    × (is_too_many ending ≡ true → length urls ≡ k)

stop-Bounded :
    (k : ℕ) (url : Url) (ending : Ending)
    → 0 < k
    → (is_too_many ending ≡ true → k ≡ 1)
    → Bounded k (some (url ∷ [], ending))
stop-Bounded k url ending h all = (url ∷ [], ending, refl, omega arith, h, λ e. sym (all e))

then_visit-Bounded :
    (k : ℕ) (url : Url) (o : Option Trace) → Bounded k o → Bounded (suc k) (then_visit url o)
then_visit-Bounded k url o (urls, ending, e, some_urls, most, all) = (
  url ∷ urls,
  ending,
  ap (then_visit url) e,
  omega arith,
  omega (arith, most),
  λ h. ap suc (all h),
)

follow-Bounded :
    (k n : ℕ) (url : Url) (resp : Response) (loc : Location) (next : Url → Option Trace)
    → k + n ≡ 10
    → ((to : Url) → 0 < k → Bounded k (next to))
    → Bounded (suc k) (follow n url resp loc next)
unfolding follow
follow-Bounded k n url resp no_location next h ih =
    stop-Bounded (suc k) url (nowhere resp) (omega arith) (λ e. ground arith)
follow-Bounded k n url resp (bad_location e) next h ih =
    stop-Bounded (suc k) url (fatal _) (omega arith) (λ e. ground arith)
follow-Bounded k n url resp (location to) next h ih =
    elim (Bool-cases (ltb max_redirects (suc n))) [
      | inl full ↦
          let last : k ≡ 0 = ground arith in
          rw full (stop-Bounded (suc k) url too_many (omega arith) (λ e. ap suc last))
      | inr left ↦
          let more : 0 < k = ground arith in
          rw left (then_visit-Bounded k url (next to) (ih to more))
    ]

go_on-Bounded :
    {Cert : Type 0} (env : Env Cert) (k n : ℕ) (url : Url) (r : Result Text (Response × Location))
    (next : Url → Option Trace)
    → k + n ≡ 10
    → ((to : Url) → 0 < k → Bounded k (next to))
    → Bounded (suc k) (go_on env n url r next)
unfolding go_on
go_on-Bounded env k n url (err e) next h ih =
    stop-Bounded (suc k) url (fatal e) (omega arith) (λ e. ground arith)
go_on-Bounded env k n url (ok (resp, loc)) next h ih =
    elim (Bool-cases (env.follow_redirects && is_redirect resp)) [
      | inl redirect ↦ rw redirect (follow-Bounded k n url resp loc next h ih)
      | inr last ↦
          rw last (stop-Bounded (suc k) url (answered resp) (omega arith) (λ e. ground arith))
    ]

visit-Bounded :
    {Cert : Type 0} (fuel k n : ℕ) (env : Env Cert) (method : Text) (url : Url)
    → k + n ≡ 10
    → k < fuel
    → Bounded (suc k) (visit fuel env method n url)
unfolding visit
visit-Bounded zero k n env method url h f = absurd (omega arith)
visit-Bounded (suc fuel) zero n env method url h f =
    go_on-Bounded env zero n url _ _ h (λ to some_left. absurd (omega arith))
visit-Bounded (suc fuel) (suc k) n env method url h f =
    go_on-Bounded env (suc k) n url _ _ h
      (λ to _. visit-Bounded fuel k (suc n) env method to (omega arith) (omega arith))

-- Whatever the servers answer: the visit of a URL comes to an end, with 11 steps of fuel and with
-- any more; it visits 11 URLs at most, and 11 exactly where it gives up because of too many
-- redirects.
pub visit-ends :
    {Cert : Type 0} (fuel : ℕ) (env : Env Cert) (method : Text) (url : Url)
    → 10 < fuel
    → (urls : List Url) × (ending : Ending) × (visit fuel env method 0 url ≡ some (urls, ending))
      × (0 < length urls)
      × (length urls ≤ 11)
      × (is_too_many ending ≡ true → length urls ≡ 11)
visit-ends fuel env method url h = visit-Bounded fuel 10 0 env method url refl h
