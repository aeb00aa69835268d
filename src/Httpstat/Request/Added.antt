-- ===== src/Httpstat/Request/Added.antt =====
-- cmd/httpstat/main.go: the host and the headers of a request with header options.
use sockstats.Common.Text.{Text}
use sockstats.Common.{
  ◌≡◌, refl, sym, ap, ◌∙◌, Bool, true, false, Option, none, some, List, [], ◌∷◌, ◌++◌, Result, ok,
  err, picks, last_or, All, if◌then◌else◌, arith, Bool-cases, inl, inr,
}
use mathlib.Core.List.{append_assoc, append-nil}
use sockstats.Httpstat.Request.{Request, header_key_value, is_host, add_headers}

-- What an option gives: the host, or a header.
abbrev host_of : Result Text (Text × Text) → Option Text
host_of (err _) = none
host_of (ok (k, v)) = if is_host k then some v else none

abbrev header_of : Result Text (Text × Text) → Option (Text × Text)
header_of (err _) = none
header_of (ok (k, v)) = if is_host k then none else some (k, v)

abbrev pub is_ok : Result Text (Text × Text) → Bool
is_ok (ok _) = true
is_ok (err _) = false

-- The option has a key and a value.
abbrev HasKey : Text → Type 0
HasKey h = is_ok (header_key_value h) ≡ true

-- The request with all the options.
abbrev pub added : List Text → Request → Request
added hs req = record req {
  host = last_or req.host (picks (λ h. host_of (header_key_value h)) hs);
  header = req.header ++ picks (λ h. header_of (header_key_value h)) hs;
}

add_headers-cons :
    (h : Text) (hs : List Text) (req : Request) (r : Result Text (Text × Text))
    → header_key_value h ≡ r
    → is_ok r ≡ true
    → ((req : Request) → add_headers hs req ≡ ok (added hs req))
    → add_headers (h ∷ hs) req ≡ ok (added (h ∷ hs) req)
unfolding add_headers
add_headers-cons h hs req (err _) e k ih = absurd (ground arith)
add_headers-cons h hs req (ok (key, v)) e k ih = elim (Bool-cases (is_host key)) [
  | inl host ↦ rw (e, add_headers, host) (ih (record req { host = v }))
  | inr other ↦
      rw (e, add_headers, other)
        (ih (record req { header = req.header ++ (key, v) ∷ [] })
          ∙ ap (λ l. ok (record (added hs req) { header = l }))
              (append_assoc req.header ((key, v) ∷ [])
                (picks (λ h. header_of (header_key_value h)) hs)))
]

-- Where all the header options have a colon and so a key: `newRequest` gets through all of them;
-- the host of the request is the value of the last option whose key is "host" in any case, and
-- where there is none the host that the request had; and the other options are its further
-- headers, in their order.
add_headers-ok :
    (hs : List Text) (req : Request)
    → All HasKey hs
    → add_headers hs req
      ≡ ok (record req {
        host = last_or req.host (picks (λ h. host_of (header_key_value h)) hs);
        header = req.header ++ picks (λ h. header_of (header_key_value h)) hs;
      })
unfolding add_headers
add_headers-ok [] req h = ap (λ l. ok (record req { header = l })) (sym (append-nil req.header))
add_headers-ok (h ∷ hs) req (k, ks) =
    add_headers-cons h hs req (header_key_value h) refl k (λ req. add_headers-ok hs req ks)
