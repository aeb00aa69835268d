-- ===== src/Httpstat/Response.antt =====
-- cmd/httpstat/main.go: what is done with the body of a response. The parser of package mime, the
-- base of a path and the creation of files are arguments.
pub mod Saved
use sockstats.Common.Text.{Text, codes, same_text}
use sockstats.Common.{
  ℕ, Bool, true, false, not, ◌&&◌, ◌||◌, Option, none, some, [], ◌∷◌, ◌++◌, Result, ok, err, ltb,
  if◌then◌else◌,
}

-- What the command reads of a response: the status, and the header Content-Disposition, "" where
-- there is none.
pub record Response : Type 0 where
  pub status_code : ℕ
  pub disposition : Text

-- `isRedirect`
unfoldable pub is_redirect : Response → Bool
is_redirect resp = ltb 299 resp.status_code && ltb resp.status_code 400

-- What `mime.ParseMediaType` gives: an error, or the media type and the parameter "filename", ""
-- where there is none.
abbrev pub MediaParser : Type 0
MediaParser = Text → Option (Text × Text)

-- `getFilenameFromHeaders`
unfoldable pub get_filename_from_headers : MediaParser → Text → Text
get_filename_from_headers parse [] = []
get_filename_from_headers parse (c ∷ hdr) = elim (parse (c ∷ hdr)) [
  | none ↦ []
  | some (mt, filename) ↦ if same_text mt (codes "attachment") then filename else []
]

-- The flags -O and -o.
pub record SaveFlags : Type 0 where
  pub save_output : Bool
  pub output_file : Text

abbrev pub is_empty : Text → Bool
is_empty [] = true
is_empty (c ∷ s) = false

-- What is done with the body: it is not read, it is read and discarded, or it goes to a file.
pub data Disposal : Type 0 where
  unread : Disposal
  discarded : Disposal
  saved : Text → Disposal

-- The name of the file: from the headers or, where they give none, `base`, which is
-- `path.Base(req.URL.RequestURI())`.
unfoldable pub file_name : MediaParser → SaveFlags → Text → Text → Result Text Text
file_name parse flags base disposition =
    if not flags.save_output
    then ok flags.output_file
    else let name = get_filename_from_headers parse disposition in
      let filename = if is_empty name then base else name in
      if same_text filename (codes "/")
      then err (codes "No remote filename; specify output filename with -o to save response body")
      else ok filename

-- `readResponseBody`, up to the copying; `create_error` is what `os.Create` gives as its error.
unfoldable pub choose_disposal :
    MediaParser → (Text → Option Text) → SaveFlags → Text → Text → Response → Result Text Disposal
choose_disposal parse create_error flags method base resp =
    if is_redirect resp || same_text method (codes "HEAD")
    then ok unread
    else if not (flags.save_output || not (is_empty flags.output_file))
    then ok discarded
    else elim (file_name parse flags base resp.disposition) [
      | err e ↦ err e
      | ok name ↦ elim (create_error name) [
        | some e ↦ err (codes "unable to create file " ++ name ++ codes ": " ++ e)
        | none ↦ ok (saved name)
      ]
    ]

-- `io.Copy`, of which `copy_error` is the error: one counts only where the body goes to a file.
unfoldable pub copied : Option Text → Result Text Disposal → Result Text Disposal
copied copy_error (err e) = err e
copied copy_error (ok unread) = ok unread
copied copy_error (ok discarded) = ok discarded
copied none (ok (saved name)) = ok (saved name)
copied (some e) (ok (saved name)) = err (codes "failed to read response body: " ++ e)

-- `readResponseBody`
unfoldable pub read_response_body :
    MediaParser
    → (Text → Option Text)
    → Option Text
    → SaveFlags
    → Text
    → Text
    → Response
    → Result Text Disposal
unfolding choose_disposal copied
read_response_body parse create_error copy_error flags method base resp =
    copied copy_error (choose_disposal parse create_error flags method base resp)

-- The message that it returns.
abbrev pub body_msg : Disposal → Text
body_msg unread = []
body_msg discarded = codes "Body discarded"
body_msg (saved name) = codes "Body read"
