-- ===== src/Httpstat/Request.antt =====
-- cmd/httpstat/main.go: what is made of the arguments before a request is sent. The parser of
-- package net/url, `http.NewRequest`, the canonical form of header names and the files are
-- arguments; `log.Fatalf` is an error; where its text
-- only wraps that of another error, the other one stands for it.
pub mod Header
pub mod Added
use sockstats.Common.Text.{
  Text, codes, contains, has_prefix, has_suffix, cut_at, trim_left, trim_right, same_text,
}
use sockstats.Common.{
  ℕ, ◌+◌, Bool, true, false, not, ◌&&◌, ◌||◌, Option, none, some, List, [], ◌∷◌, ◌++◌, Result, ok,
  err, leb, ◌==◌, if◌then◌else◌,
}

-- The fields of a `url.URL` that the command reads or sets.
pub record Url : Type 0 where
  pub scheme : Text
  pub host : Text
  pub path : Text

-- `parseURL`
unfoldable pub with_slashes : Text → Text
with_slashes uri =
    if not (contains uri (codes "://")) && not (has_prefix uri (codes "//"))
    then codes "//" ++ uri
    else uri

-- `if url.Scheme == ""`, from the host and the scheme.
unfoldable pub scheme_of : Text → Text → Text
scheme_of host [] =
    if not (has_suffix host (codes ":80")) then codes "http" ++ codes "s" else codes "http"
scheme_of host (c ∷ scheme) = c ∷ scheme

unfoldable pub parse_url : (Text → Result Text Url) → Text → Result Text Url
unfolding scheme_of
parse_url parse uri = elim (parse (with_slashes uri)) [
  | err e ↦ err e
  | ok url ↦ ok (record url { scheme = scheme_of url.host url.scheme })
]

-- The cut sets " " and " :".
abbrev pub is_blank : ℕ → Bool
is_blank c = c == b' '

abbrev pub is_mark : ℕ → Bool
is_mark c = c == b' ' || c == b':'

-- `headerKeyValue`
unfoldable pub header_key_value : Text → Result Text (Text × Text)
header_key_value h = elim (cut_at b':' h) [
  | none ↦ err (codes "Header '" ++ h ++ codes "' has invalid format, missing ':'")
  | some (key, value) ↦ ok (trim_right is_blank key, trim_left is_mark value)
]

-- `strings.EqualFold` of a name and "host": the simple case folding of Unicode has the long s
-- beside the letters of ASCII.
abbrev pub fold_letter : ℕ → ℕ
fold_letter c = if leb b'A' c && leb c b'Z' then c + 32 else if c == 383 then b's' else c

abbrev pub fold : Text → Text
fold [] = []
fold (c ∷ s) = fold_letter c ∷ fold s

abbrev pub is_host : Text → Bool
is_host k = same_text (fold k) (codes "host")

-- The host of a request and its headers, in the order of the calls of `Add`.
pub record Request : Type 0 where
  pub method : Text
  pub url : Url
  pub host : Text
  pub header : List (Text × Text)

-- The loop of `newRequest` over `httpHeaders`.
unfoldable pub add_headers : List Text → Request → Result Text Request
add_headers [] req = ok req
add_headers (h ∷ hs) req = elim (header_key_value h) [
  | err e ↦ err e
  | ok (k, v) ↦
      if is_host k
      then add_headers hs (record req { host = v })
      else add_headers hs (record req { header = req.header ++ (k, v) ∷ [] })
]

-- `createBody`: the file of the name, or the text. `open_error` is what `os.Open` gives as its error.
pub data Body : Type 0 where
  file : Text → Body
  text : Text → Body

unfoldable pub create_body : (Text → Option Text) → Text → Result Text Body
create_body open_error [] = ok (text [])
create_body open_error (c ∷ filename) =
    if not (c == b'@') then ok (text (c ∷ filename)) else elim (open_error filename) [
      | none ↦ ok (file filename)
      | some e ↦ err (codes "failed to open data file " ++ filename ++ codes ": " ++ e)
    ]

-- `newRequest`; `new_request` is `http.NewRequest` of the method and the url.
unfoldable pub new_request :
    (Text → Url → Result Text Request)
    → (Text → Option Text)
    → List Text
    → Text
    → Url
    → Text
    → Result Text (Request × Body)
new_request make open_error http_headers method url body = elim (create_body open_error body) [
  | err e ↦ err e
  | ok b ↦ elim (make method url) [
    | err e ↦ err (codes "unable to create request: " ++ e)
    | ok req ↦ elim (add_headers http_headers req) [ err e ↦ err e | ok r ↦ ok (r, b) ]
  ]
]
