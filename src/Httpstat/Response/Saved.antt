-- ===== src/Httpstat/Response/Saved.antt =====
-- cmd/httpstat/main.go: which responses are saved, and under which name.
use sockstats.Common.Text.{Text, codes, same_text}
use sockstats.Common.{
  ◌≡◌, refl, ◌≤◌, ◌<◌, ◌⊎◌, true, false, not, ◌||◌, Option, none, some, ◌++◌, Result, ok, err,
  if◌then◌else◌, arith, Bool-cases, inl, inr,
}
use sockstats.Httpstat.Response.{
  Response, is_redirect, MediaParser, get_filename_from_headers, SaveFlags, is_empty, Disposal,
  unread, discarded, saved, file_name, choose_disposal, copied, read_response_body,
}

-- The response has a body that is read: it is no redirect, and the method is not HEAD.
abbrev pub HasBody : Text → Response → Type 0
HasBody method resp =
    ((resp.status_code ≤ 299) ⊎ (400 ≤ resp.status_code))
    × (same_text method (codes "HEAD") ≡ false)

-- A name that a body is saved under: with -O it is not "/", and it is the name of the header where
-- the header has one and the base of the path otherwise; without -O it is that of -o, which is not
-- empty.
abbrev pub IsName : MediaParser → SaveFlags → Text → Response → Text → Type 0
IsName parse flags base resp name =
    let given = get_filename_from_headers parse resp.disposition in
    if flags.save_output
    then (same_text name (codes "/") ≡ false) × (name ≡ (if is_empty given then base else given))
    else (name ≡ flags.output_file) × (is_empty name ≡ false)

-- With -O, the name is "/".
abbrev pub NoName : MediaParser → SaveFlags → Text → Response → Type 0
NoName parse flags base resp =
    let given = get_filename_from_headers parse resp.disposition in
    (flags.save_output ≡ true)
    × (same_text (if is_empty given then base else given) (codes "/") ≡ true)

-- What the ways of disposing of a body, and an error, tell.
abbrev Chosen :
    MediaParser
    → (Text → Option Text)
    → SaveFlags
    → Text
    → Text
    → Response
    → Result Text Disposal
    → Type 0
Chosen parse create_error flags method base resp (ok unread) =
    ((300 ≤ resp.status_code) × (resp.status_code < 400)) ⊎ (same_text method (codes "HEAD") ≡ true)
Chosen parse create_error flags method base resp (ok discarded) =
    HasBody method resp × (flags.save_output ≡ false) × (is_empty flags.output_file ≡ true)
Chosen parse create_error flags method base resp (ok (saved name)) =
    HasBody method resp × IsName parse flags base resp name × (create_error name ≡ none)
Chosen parse create_error flags method base resp (err _) =
    HasBody method resp
    × (NoName parse flags base resp
        ⊎ ((name : Text) × (e : Text) × IsName parse flags base resp name
            × (create_error name ≡ some e)))

-- What choosing a name tells, where one is asked for.
abbrev Names : MediaParser → SaveFlags → Text → Response → Result Text Text → Type 0
Names parse flags base resp (ok name) = IsName parse flags base resp name
Names parse flags base resp (err _) = NoName parse flags base resp

file_name-Names :
    (parse : MediaParser) (flags : SaveFlags) (base : Text) (resp : Response)
    → (flags.save_output || not (is_empty flags.output_file)) ≡ true
    → Names parse flags base resp (file_name parse flags base resp.disposition)
unfolding file_name
file_name-Names parse flags base resp asked = elim (Bool-cases flags.save_output) [
  | inr off ↦ let set : is_empty flags.output_file ≡ false = ground arith in rw off (refl, set)
  | inl on ↦
      let given = get_filename_from_headers parse resp.disposition in
      elim (Bool-cases (same_text (if is_empty given then base else given) (codes "/"))) [
        | inl slash ↦ rw (on, slash) (refl, slash)
        | inr named ↦ rw (on, named) (named, refl)
      ]
]

creating-Chosen :
    (parse : MediaParser) (create_error : Text → Option Text) (flags : SaveFlags)
    (method base : Text) (resp : Response) (name : Text) (o : Option Text)
    → create_error name ≡ o
    → HasBody method resp
    → IsName parse flags base resp name
    → Chosen parse create_error flags method base resp (elim o [
      | some e ↦ err (codes "unable to create file " ++ name ++ codes ": " ++ e)
      | none ↦ ok (saved name)
    ])
creating-Chosen parse create_error flags method base resp name none e has is = (has, is, e)
creating-Chosen parse create_error flags method base resp name (some x) e has is =
    (has, inr (name, x, is, e))

choosing-Chosen :
    (parse : MediaParser) (create_error : Text → Option Text) (flags : SaveFlags)
    (method base : Text) (resp : Response) (r : Result Text Text)
    → HasBody method resp
    → Names parse flags base resp r
    → Chosen parse create_error flags method base resp (elim r [
      | err e ↦ err e
      | ok name ↦ elim (create_error name) [
        | some e ↦ err (codes "unable to create file " ++ name ++ codes ": " ++ e)
        | none ↦ ok (saved name)
      ]
    ])
choosing-Chosen parse create_error flags method base resp (err e) has names = (has, inl names)
choosing-Chosen parse create_error flags method base resp (ok name) has names =
    creating-Chosen parse create_error flags method base resp name (create_error name) refl has
      names

choose_disposal-Chosen :
    (parse : MediaParser) (create_error : Text → Option Text) (flags : SaveFlags)
    (method base : Text) (resp : Response)
    → Chosen parse create_error flags method base resp
        (choose_disposal parse create_error flags method base resp)
unfolding choose_disposal is_redirect
choose_disposal-Chosen parse create_error flags method base resp =
    elim (Bool-cases (is_redirect resp || same_text method (codes "HEAD"))) [
      | inl skip ↦ rw skip (ground arith)
      | inr body ↦
          let has : HasBody method resp = (ground arith, ground arith) in
          rw body (elim (Bool-cases (flags.save_output || not (is_empty flags.output_file))) [
            | inr no_file ↦ rw no_file (has, ground arith, ground arith)
            | inl asked ↦ rw asked (
                choosing-Chosen parse create_error flags method base resp _ has
                  (file_name-Names parse flags base resp asked))
          ])
    ]

-- What the ways of disposing of a body, and an error, tell, the error of the copying in hand.
abbrev pub Tells :
    MediaParser
    → (Text → Option Text)
    → Option Text
    → SaveFlags
    → Text
    → Text
    → Response
    → Result Text Disposal
    → Type 0
Tells parse create_error copy_error flags method base resp (ok unread) =
    ((300 ≤ resp.status_code) × (resp.status_code < 400)) ⊎ (same_text method (codes "HEAD") ≡ true)
Tells parse create_error copy_error flags method base resp (ok discarded) =
    HasBody method resp × (flags.save_output ≡ false) × (is_empty flags.output_file ≡ true)
Tells parse create_error copy_error flags method base resp (ok (saved name)) =
    HasBody method resp
    × IsName parse flags base resp name
    × (create_error name ≡ none)
    × (copy_error ≡ none)
Tells parse create_error copy_error flags method base resp (err _) =
    HasBody method resp
    × (NoName parse flags base resp
        ⊎ ((name : Text) × (e : Text) × IsName parse flags base resp name
            × (create_error name ≡ some e))
        ⊎ ((name : Text) × (e : Text) × IsName parse flags base resp name
            × (create_error name ≡ none)
            × (copy_error ≡ some e)))

copied-Tells :
    (parse : MediaParser) (create_error : Text → Option Text) (copy_error : Option Text)
    (flags : SaveFlags) (method base : Text) (resp : Response) (r : Result Text Disposal)
    → Chosen parse create_error flags method base resp r
    → Tells parse create_error copy_error flags method base resp (copied copy_error r)
unfolding copied
copied-Tells parse create_error copy_error flags method base resp (ok unread) h = h
copied-Tells parse create_error copy_error flags method base resp (ok discarded) h = h
copied-Tells parse create_error none flags method base resp (ok (saved name)) (has, is, made) =
    (has, is, made, refl)
copied-Tells parse create_error (some e) flags method base resp (ok (saved name)) (has, is, made) =
    (has, inr (inr (name, e, is, made, refl)))
copied-Tells parse create_error copy_error flags method base resp (err _) (has, inl no_name) =
    (has, inl no_name)
copied-Tells parse create_error copy_error flags method base resp (err _)
      (has, inr (name, e, is, failed)) =
    (has, inr (inl (name, e, is, failed)))

-- The body of a response is not read exactly for a status from 300 to 399 or the method HEAD. Else
-- it is read. It is discarded where neither -O nor -o is given, and then an error of the copying is
-- ignored. It is saved, under the name that the flags and the headers determine, where the file can
-- be created and the copying gives no error; and there is an error where one of these fails, or
-- where with -O the name is "/".
pub read_response_body-Tells :
    (parse : MediaParser) (create_error : Text → Option Text) (copy_error : Option Text)
    (flags : SaveFlags) (method base : Text) (resp : Response)
    → Tells parse create_error copy_error flags method base resp
        (read_response_body parse create_error copy_error flags method base resp)
unfolding read_response_body
read_response_body-Tells parse create_error copy_error flags method base resp =
    copied-Tells parse create_error copy_error flags method base resp _
      (choose_disposal-Chosen parse create_error flags method base resp)
