-- ===== src/Tests/Httpstat.antt =====
-- cmd/httpstat on concrete arguments, headers and responses.
use sockstats.Common.Int.{pos}
use sockstats.Common.Text.{Text, codes, same_text, trim_left, trim_right, cut_at, join_texts}
use sockstats.Common.{
  ◌≤◌, ◌<◌, ◌≡◌, refl, true, false, Option, none, some, List, [], ◌∷◌, Result, ok, err, arith,
}
use sockstats.Httpstat.Headers.Sorting.{AllDiffer}
use sockstats.Httpstat.Headers.{string, options_of}
use sockstats.Httpstat.Main.{Flags}
use sockstats.Httpstat.Request.{Url, Request, header_key_value, add_headers}
use sockstats.Httpstat.Response.Saved.{Tells, read_response_body-Tells}
use sockstats.Httpstat.Response.{
  Response, is_redirect, MediaParser, SaveFlags, file_name, get_filename_from_headers,
  read_response_body,
}
use sockstats.Httpstat.Times.Phases.{IsTimed, http_columns-IsTimed}
use sockstats.Httpstat.Times.{
  Event, dns_start, dns_done, connect_start, connect_done, got_conn, got_first_response_byte,
  no_times, hook, hooks, settle, http_columns,
}

abbrev pub home : Url
home = record { scheme = codes "https"; host = codes "example.com"; path = codes "/" }

-- The headers of a response, and the names in two orders.
abbrev pub values : Text → List Text
values k = codes "1" ∷ codes "2" ∷ []

abbrev pub names : List Text
names = codes "Date" ∷ codes "Connection" ∷ codes "Server" ∷ []

pub names-AllDiffer : AllDiffer names
unfolding same_text
names-AllDiffer = ground arith

shown_options : string (codes "A: 1" ∷ codes "B: 2" ∷ []) ≡ codes "-H A: 1 -H B: 2"
unfolding string options_of join_texts
shown_options = refl

-- A value that starts with colons loses them.
lost_colons :
    header_key_value (codes "X-Forwarded-For: ::1") ≡ ok (codes "X-Forwarded-For", codes "1")
unfolding header_key_value cut_at trim_left trim_right
lost_colons = refl

abbrev pub asked : Request
asked = record { method = codes "GET"; url = home; host = codes "example.com"; header = [] }

abbrev header_options : List Text
header_options = codes "HOST: test" ∷ codes "Accept: text/html" ∷ []

added_headers :
    add_headers header_options asked
    ≡ ok (record asked { host = codes "test"; header = (codes "Accept", codes "text/html") ∷ [] })
unfolding add_headers header_key_value cut_at trim_left trim_right same_text
added_headers = refl

-- `mime.ParseMediaType` where the header is an attachment that is called "report.pdf".
abbrev pub attached : MediaParser
attached header = some (codes "attachment", codes "report.pdf")

abbrev pub no_error : Text → Option Text
no_error name = none

abbrev save : SaveFlags
save = record { save_output = true; output_file = [] }

abbrev found : Response
found = record { status_code = 200; disposition = codes "attachment; filename=report.pdf" }

read_response_body-Tells_example :
    Tells attached no_error (some (codes "disk full")) save (codes "GET") (codes "latest") found (
      read_response_body attached no_error
        (some (codes "disk full"))
        save
        (codes "GET")
        (codes "latest")
        found)
read_response_body-Tells_example =
    read_response_body-Tells attached no_error (some (codes "disk full")) save (codes "GET")
      (codes "latest") found

saved_body :
    read_response_body attached no_error
      (some (codes "disk full"))
      save
      (codes "GET")
      (codes "latest")
      found
    ≡ err (codes "failed to read response body: disk full")
unfolding read_response_body is_redirect file_name get_filename_from_headers same_text
saved_body = refl

-- The hooks of a request whose host is looked up, and the time behind the body.
abbrev traced : List Event
traced =
    dns_start (pos 1000000)
    ∷ dns_done (pos 3500000)
    ∷ connect_start (pos 3600000)
    ∷ connect_done (pos 9900000)
    ∷ got_conn (pos 10000000)
    ∷ got_first_response_byte (pos 60000000)
    ∷ []

traced-IsTimed : IsTimed (settle (hooks traced no_times)) 1000000 3500000 10000000 60000000 75000000
unfolding settle hooks hook
traced-IsTimed = record {
  looking = refl;
  found = refl;
  got = refl;
  answered = refl;
  ab = omega arith;
  be = omega arith;
  ef = omega arith;
  fg = omega arith;
  fits = omega arith;
}

http_columns-IsTimed_example :
    (http_columns (settle (hooks traced no_times)) (some (pos 75000000))
      ≡ pos 2 ∷ pos 6 ∷ pos 50 ∷ pos 15 ∷ pos 2 ∷ pos 9 ∷ pos 59 ∷ pos 74 ∷ [])
    × (73 ≤ 74)
    × (74 < 77)
http_columns-IsTimed_example =
    http_columns-IsTimed traced 1000000 3500000 10000000 60000000 75000000 traced-IsTimed

abbrev flags : Flags
flags = record {
  http_method = codes "GET";
  post_body = [];
  only_header = true;
  show_version = false;
  four_only = false;
  six_only = true;
}

-- `url.Parse`, where it gives the page.
abbrev pub parse_home : Text → Result Text Url
parse_home uri = ok home
