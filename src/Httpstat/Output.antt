-- ===== src/Httpstat/Output.antt =====
-- cmd/httpstat/main.go: what `visit` prints, as package color writes it where colours are off: each
-- item of a list is what one call of `printf` writes.
pub mod Aligned
use sockstats.Common.Int.{ℤ, pos, negsuc}
use sockstats.Common.Text.{Text, codes, format_int, format_uint, same_text}
use sockstats.Common.{
  ℕ, zero, suc, ◌-◌, Bool, true, false, ◌&&◌, Option, none, some, List, [], ◌∷◌, ◌++◌, map, ◌==◌,
  length, if◌then◌else◌,
}
use sockstats.Httpstat.Headers.{header_lines}
use sockstats.Httpstat.Response.{Disposal, body_msg}
use sockstats.Httpstat.Times.{Times, http_columns, https_columns}
use sockstats.Httpstat.Tls.{connected_via}

-- The lines of `httpsTemplate`, each with its newline.
abbrev pub https_template : List Text
https_template =
    codes "  DNS Lookup   TCP Connection   TLS Handshake   Server Processing   Content Transfer\n"
    ∷ codes "[%s  |     %s  |    %s  |        %s  |       %s  ]\n"
    ∷ codes
        "            |                |               |                   |                  |\n"
    ∷ codes "   namelookup:%s      |               |                   |                  |\n"
    ∷ codes "                       connect:%s     |                   |                  |\n"
    ∷ codes "                                   pretransfer:%s         |                  |\n"
    ∷ codes "                                                     starttransfer:%s        |\n"
    ∷ codes
        "                                                                                total:%s\n"
    ∷ []

-- The lines of `httpTemplate`.
abbrev pub http_template : List Text
http_template =
    codes "   DNS Lookup   TCP Connection   Server Processing   Content Transfer\n"
    ∷ codes "[ %s  |     %s  |        %s  |       %s  ]\n"
    ∷ codes "             |                |                   |                  |\n"
    ∷ codes "    namelookup:%s      |                   |                  |\n"
    ∷ codes "                        connect:%s         |                  |\n"
    ∷ codes "                                      starttransfer:%s        |\n"
    ∷ codes "                                                                 total:%s\n"
    ∷ []

-- The text of a template.
abbrev pub concat : List Text → Text
concat [] = []
concat (t ∷ ts) = t ++ concat ts

-- `fmt.Sprintf` of a template and texts: each %s takes the next text.
unfoldable pub fill : Text → List Text → Text
fill [] args = []
fill (c ∷ []) args = c ∷ []
fill (c ∷ d ∷ t) args =
    let kept = c ∷ fill (d ∷ t) args in
    let missing = codes "%!s(MISSING)" ++ fill t [] in
    if (c == b'%') && (d == b's')
    then elim args [ [] ↦ missing | a ∷ more ↦ a ++ fill t more ]
    else kept

abbrev pub spaces : ℕ → Text
spaces zero = []
spaces (suc n) = b' ' ∷ spaces n

-- A width of at least so many characters, with the blanks in front or, with a minus, behind.
abbrev pub pad_left : ℕ → Text → Text
pad_left width t = spaces (width - length t) ++ t

abbrev pub pad_right : ℕ → Text → Text
pad_right width t = t ++ spaces (width - length t)

-- `fmta` and `fmtb`, of the milliseconds: the formats "%7dms" and "%-9s".
unfoldable pub fmta : ℤ → Text
fmta d = pad_left 7 (format_int d) ++ codes "ms"

unfoldable pub fmtb : ℤ → Text
fmtb d = pad_right 9 (format_int d ++ codes "ms")

-- The first columns of a template are printed by `fmta`, the others by `fmtb`.
abbrev pub columns : ℕ → List ℤ → List Text
columns n [] = []
columns zero (d ∷ ds) = fmtb d ∷ columns zero ds
columns (suc n) (d ∷ ds) = fmta d ∷ columns n ds

-- The switch that prints the times: other schemes than https and http print none.
unfoldable pub time_prints : Text → Times → Option ℤ → List Text
time_prints scheme t t7 =
    if same_text scheme (codes "https")
    then fill (concat https_template) (columns 5 (https_columns t t7)) ∷ []
    else if same_text scheme (codes "http")
    then fill (concat http_template) (columns 4 (http_columns t t7)) ∷ []
    else []

-- What `visit` prints of an answer: the version of `resp.TLS`, the protocol and the status, the
-- names in the header and the values of each.
pub record Answer : Type 0 where
  pub tls : Option ℕ
  pub proto_major : ℕ
  pub proto_minor : ℕ
  pub status : Text
  pub names : List Text
  pub header : Text → List Text

abbrev pub with_newline : Text → Text
with_newline t = t ++ codes "\n"

-- The line of the status.
abbrev pub status_print : Answer → Text
status_print a =
    codes "\nHTTP/"
    ++ (format_uint a.proto_major
        ++ (codes "." ++ (format_uint a.proto_minor ++ (codes " " ++ (a.status ++ codes "\n")))))

abbrev pub message_prints : Text → List Text
message_prints [] = []
message_prints (c ∷ msg) = (codes "\n" ++ ((c ∷ msg) ++ codes "\n")) ∷ []

-- From the response to the report on the connection.
unfoldable pub answer_prints :
    (List Text → List Text) → Text → Answer → Disposal → Times → Option ℤ → List Text
unfolding time_prints
answer_prints sort scheme a body t t7 =
    (codes "\nConnected via " ++ (connected_via a.tls ++ codes "\n"))
    ∷ status_print a
    ∷ (map with_newline (header_lines sort a.header a.names)
        ++ (message_prints (body_msg body) ++ (codes "\n" ∷ time_prints scheme t t7)))
