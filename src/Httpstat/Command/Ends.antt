-- ===== src/Httpstat/Command/Ends.antt =====
-- cmd/httpstat/main.go: the command comes to an end.
use mathlib.Core.Path.{subst}
use sockstats.Common.Int.{pos}
use sockstats.Common.Text.{Text}
use sockstats.Common.{
  ℕ, zero, suc, ◌≤◌, ◌<◌, ◌≡◌, refl, ap, ◌∙◌, Bool, true, false, ◌&&◌, Option, none, some, List, [],
  ◌∷◌, Result, ok, err, length, ltb, arith, Bool-cases, inl, inr,
}
use sockstats.Httpstat.Command.{
  Services, Outcome, exited, stopped, visited, env_of, outcome_of, visit_with, finish, command,
}
use sockstats.Httpstat.CommandLine.{
  Settings, defaults, Parsed, parsed, refused, help, parse_args, flags_of, run_command, run_parsed,
}
use sockstats.Httpstat.Main.{Run, exits, stops, visits, main}
use sockstats.Httpstat.Request.{Url}
use sockstats.Httpstat.Response.{Response, is_redirect}
use sockstats.Httpstat.Tls.Blocks.{Shrinks, read_client_cert-Blocks}
use sockstats.Httpstat.Tls.{with_file, read_client_cert}
use sockstats.Httpstat.Visit.Limit.{is_too_many, visit-ends}
use sockstats.Httpstat.Visit.{
  Location, location, no_location, bad_location, Env, max_redirects, Trace, then_visit, follow,
  go_on, visit,
}

-- The first of the visits is that of the URL; without -L it is the only one.
abbrev Starts : Url → Bool → Option Trace → Type 0
Starts url following none = Unit
Starts url following (some (urls, ending)) =
    (more : List Url) × (urls ≡ url ∷ more) × (following ≡ false → more ≡ [])

then_visit-Starts :
    (url : Url) (following : Bool) (o : Option Trace)
    → following ≡ true
    → Starts url following (then_visit url o)
then_visit-Starts url following none h = tt
then_visit-Starts url following (some (urls, ending)) h = (urls, refl, λ e. absurd (ground arith))

follow-Starts :
    (n : ℕ) (url : Url) (following : Bool) (resp : Response) (loc : Location)
    (next : Url → Option Trace)
    → following ≡ true
    → Starts url following (follow n url resp loc next)
unfolding follow
follow-Starts n url following resp no_location next h = ([], refl, λ e. refl)
follow-Starts n url following resp (bad_location e) next h = ([], refl, λ e. refl)
follow-Starts n url following resp (location to) next h =
    elim (Bool-cases (ltb max_redirects (suc n))) [
      | inl full ↦ rw full ([], refl, λ e. refl)
      | inr left ↦ rw left (then_visit-Starts url following (next to) h)
    ]

go_on-Starts :
    {Cert : Type 0} (env : Env Cert) (n : ℕ) (url : Url) (r : Result Text (Response × Location))
    (next : Url → Option Trace)
    → Starts url env.follow_redirects (go_on env n url r next)
unfolding go_on
go_on-Starts env n url (err e) next = ([], refl, λ e. refl)
go_on-Starts env n url (ok (resp, loc)) next =
    elim (Bool-cases (env.follow_redirects && is_redirect resp)) [
      | inl redirect ↦
          rw redirect (follow-Starts n url env.follow_redirects resp loc next (ground arith))
      | inr last ↦ rw last ([], refl, λ e. refl)
    ]

visit-Starts :
    {Cert : Type 0} (fuel : ℕ) (env : Env Cert) (method : Text) (n : ℕ) (url : Url)
    → Starts url env.follow_redirects (visit fuel env method n url)
unfolding visit
visit-Starts zero env method n url = tt
visit-Starts (suc fuel) env method n url = go_on-Starts env n url _ _

read_client_cert-some :
    {Cert : Type 0} (fuel : ℕ) (sv : Services Cert) (name : Text)
    → Shrinks sv.decode
    → ((name bytes : Text) → sv.read_file name ≡ ok bytes → length bytes < fuel)
    → (certs : Result Text (List Cert)) × (read_client_cert fuel sv.read_file sv.decode sv.key_pair
          name
        ≡ some certs)
unfolding read_client_cert
read_client_cert-some fuel sv [] h f = (ok [], refl)
read_client_cert-some {Cert} fuel sv (c ∷ name) h f = go (sv.read_file (c ∷ name)) refl
  where
    go :
        (r : Result Text Text)
        → sv.read_file (c ∷ name) ≡ r
        → (certs : Result Text (List Cert)) × (read_client_cert fuel sv.read_file sv.decode
              sv.key_pair
              (c ∷ name)
            ≡ some certs)
    go (err e) there = (_, ap (with_file fuel sv.decode sv.key_pair) there)
    go (ok bytes) there =
        let (blocks, found, ran) =
          read_client_cert-Blocks fuel sv.read_file sv.decode sv.key_pair c name bytes h there
            (f (c ∷ name) bytes there) in
        (_, ran)

-- How the command ends: as `main` does, or with the visits of the URL of `main` and of the
-- redirects.
abbrev pub Ends : {Cert : Type 0} → Services Cert → List Text → Outcome → Type 0
Ends sv args (exited c) = run_command sv.parse args ≡ exits c
Ends sv args (stopped e) = run_command sv.parse args ≡ stops e
Ends sv args (visited urls ending) =
    (s : Settings) × (rest : List Text) × (method : Text) × (url : Url) × (more : List Url)
    × (parse_args args defaults ≡ parsed s rest)
    × (main sv.parse (flags_of s) rest ≡ visits method url)
    × (urls ≡ url ∷ more)
    × (length more ≤ 10)
    × (is_too_many ending ≡ true → length more ≡ 10)
    × (s.follow_redirects ≡ false → more ≡ [])

module _ {Cert : Type 0} (fuel : ℕ) (sv : Services Cert) (args : List Text)
    (shrinks : Shrinks sv.decode)
    (files : (name bytes : Text) → sv.read_file name ≡ ok bytes → length bytes < fuel)
    (enough : 10 < fuel) where
  finish-Ends :
      (s : Settings) (rest : List Text) (r : Run)
      → parse_args args defaults ≡ parsed s rest
      → main sv.parse (flags_of s) rest ≡ r
      → (o : Outcome) × (finish fuel sv s r ≡ some o) × Ends sv args o
  unfolding finish run_command
  finish-Ends s rest (exits c) e m = (exited c, refl, ap (run_parsed sv.parse) e ∙ m)
  finish-Ends s rest (stops t) e m = (stopped t, refl, ap (run_parsed sv.parse) e ∙ m)
  finish-Ends s rest (visits method url) e m =
      let (certs, loaded) = read_client_cert-some fuel sv s.client_cert_file shrinks files in
      let env = env_of sv s certs in
      let (urls, ending, ran, _, most, all) = visit-ends fuel env method url enough in
      let (more, same, only) =
        subst (Starts url s.follow_redirects) ran (visit-Starts fuel env method 0 url) in
      (
        visited urls ending,
        ap (visit_with fuel sv s method url) loaded ∙ ap outcome_of ran,
        (
          s,
          rest,
          method,
          url,
          more,
          e,
          m,
          same,
          omega (arith, ap length same, most),
          λ h. omega (arith, ap length same, all h),
          only,
        ),
      )

-- Whatever the command line is and whatever the servers answer, with a decoder of PEM that leaves
-- less than it was given and more fuel than each file has bytes, and than 10: the command comes to
-- an end. It exits or stops where `main` does. Otherwise it visits the URL that `main` has made of
-- the command line first, and then 10 more at most, exactly 10 if it gives up because of too many
-- redirects, and none if -L does not stand.
pub command-Ends :
    {Cert : Type 0} (fuel : ℕ) (sv : Services Cert) (args : List Text)
    → Shrinks sv.decode
    → ((name bytes : Text) → sv.read_file name ≡ ok bytes → length bytes < fuel)
    → 10 < fuel
    → (o : Outcome) × (command fuel sv args ≡ some o) × Ends sv args o
unfolding command run_command
command-Ends fuel sv args shrinks files enough = go (parse_args args defaults) refl
  where
    go :
        (p : Parsed)
        → parse_args args defaults ≡ p
        → (o : Outcome) × (command fuel sv args ≡ some o) × Ends sv args o
    go (parsed s rest) e =
        let (o, ran, ends) = finish-Ends fuel sv args shrinks files enough s rest _ e refl in
        (o, rw (e, command) ran, ends)
    go (refused r) e = (exited (pos 2), rw (e, command) refl, ap (run_parsed sv.parse) e)
    go help e = (exited (pos 0), rw (e, command) refl, ap (run_parsed sv.parse) e)
