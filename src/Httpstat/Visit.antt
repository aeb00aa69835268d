-- ===== src/Httpstat/Visit.antt =====
-- cmd/httpstat/main.go: `visit`, with the redirects that it follows. The exchange of a request for
-- a response is an argument, which may answer each visit in its own way.
pub mod Limit
use sockstats.Common.Text.{Text, codes, same_text}
use sockstats.Common.{
  ℕ, zero, suc, Bool, true, false, not, ◌&&◌, Option, none, some, List, [], ◌∷◌, ◌++◌, Result, ok,
  err, ltb, if◌then◌else◌,
}
use sockstats.Httpstat.Request.{Url, Request, Body, new_request}
use sockstats.Httpstat.Response.{Response, is_redirect, MediaParser, SaveFlags, read_response_body}
use sockstats.Httpstat.Tls.{TlsConfig, tls_config}

-- What `resp.Location()` gives: a URL, `http.ErrNoLocation`, or another error.
pub data Location : Type 0 where
  location : Url → Location
  no_location : Location
  bad_location : Text → Location

-- What `visit` uses that is not its own: the flags, what package net/http makes of requests, and
-- the files, and what `readClientCert` gives. The numbers that some of it takes are those of the
-- redirects followed so far.
pub record Env (Cert : Type 0) : Type 0 where
  pub http_headers : List Text
  pub post_body : Text
  pub follow_redirects : Bool
  pub save_flags : SaveFlags
  pub insecure : Bool
  pub network : Text
  pub client_certs : ℕ → Result Text (List Cert)
  pub split_host_port : Text → Option (Text × Text)
  pub make : Text → Url → Result Text Request
  pub open_error : Text → Option Text
  pub exchange :
      ℕ → Text → Option (TlsConfig Cert) → Request → Body → Result Text (Response × Location)
  pub parse_media : MediaParser
  pub create_error : Text → Option Text
  pub copy_error : ℕ → Option Text
  pub base_of : Request → Text

module _ {Cert : Type 0} where
  -- The configuration of the transport for a URL: the certificate is read for https only.
  abbrev pub with_certs :
      Env Cert → Url → Request → Result Text (List Cert) → Result Text (Option (TlsConfig Cert))
  with_certs env url req (err e) = err e
  with_certs env url req (ok certs) =
      ok (tls_config env.split_host_port env.insecure url.scheme req.host certs)

  abbrev pub tls_of : Env Cert → ℕ → Url → Request → Result Text (Option (TlsConfig Cert))
  tls_of env n url req =
      if same_text url.scheme (codes "https")
      then with_certs env url req (env.client_certs n)
      else ok none

  -- From the request to the reading of the body.
  unfoldable pub visit_once : Env Cert → Text → ℕ → Url → Result Text (Response × Location)
  visit_once env method n url =
      elim (new_request env.make env.open_error env.http_headers method url env.post_body) [
        | err e ↦ err e
        | ok (req, body) ↦ elim (tls_of env n url req) [
          | err e ↦ err e
          | ok tls ↦ elim (env.exchange n env.network tls req body) [
            | err e ↦ err (codes "failed to read response: " ++ e)
            | ok (resp, loc) ↦
                elim (read_response_body env.parse_media env.create_error (env.copy_error n)
                  env.save_flags req.method (env.base_of req) resp) [
                    | err e ↦ err e
                    | ok _ ↦ ok (resp, loc)
                  ]
          ]
        ]
      ]

abbrev pub max_redirects : ℕ
max_redirects = 10

-- How the last of the visits ends.
pub data Ending : Type 0 where
  answered : Response → Ending
  nowhere : Response → Ending
  fatal : Text → Ending
  too_many : Ending

-- The URLs visited, and the ending.
abbrev pub Trace : Type 0
Trace = List Url × Ending

abbrev pub then_visit : Url → Option Trace → Option Trace
then_visit url none = none
then_visit url (some (urls, ending)) = some (url ∷ urls, ending)

-- From `resp.Location()` on: `next` is the visit of the location.
unfoldable pub follow : ℕ → Url → Response → Location → (Url → Option Trace) → Option Trace
follow n url resp no_location next = some (url ∷ [], nowhere resp)
follow n url resp (bad_location e) next =
    some (url ∷ [], fatal (codes "unable to follow redirect: " ++ e))
follow n url resp (location to) next =
    if ltb max_redirects (suc n) then some (url ∷ [], too_many) else then_visit url (next to)

module _ {Cert : Type 0} where
  -- From the response on.
  unfoldable pub go_on :
      Env Cert → ℕ → Url → Result Text (Response × Location) → (Url → Option Trace) → Option Trace
  unfolding is_redirect follow
  go_on env n url (err e) next = some (url ∷ [], fatal e)
  go_on env n url (ok (resp, loc)) next =
      if env.follow_redirects && is_redirect resp
      then follow n url resp loc next
      else some (url ∷ [], answered resp)

  -- `visit`, where `n` redirects have been followed, on fuel: each visit takes one.
  unfoldable pub visit : ℕ → Env Cert → Text → ℕ → Url → Option Trace
  unfolding visit_once go_on
  visit zero env method n url = none
  visit (suc fuel) env method n url =
      go_on env n url (visit_once env method n url) (λ to. visit fuel env method (suc n) to)
