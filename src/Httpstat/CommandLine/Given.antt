-- ===== src/Httpstat/CommandLine/Given.antt =====
-- cmd/httpstat/main.go: options, the arguments that stand for them and the settings that they ask for.
use sockstats.Common.Text.{Text, codes}
use sockstats.Common.{Bool, true, false, Option, none, some, List, [], ◌∷◌, ◌++◌, last_or, picks}
use sockstats.Httpstat.CommandLine.{Settings}

-- An option, with the value that is given to it.
pub data Given : Type 0 where
  method : Text → Given
  body : Text → Given
  header : Text → Given
  output : Text → Given
  cert : Text → Given
  redirects : Bool → Given
  headers_only : Bool → Given
  insecure : Bool → Given
  save : Bool → Given
  version : Bool → Given
  four : Bool → Given
  six : Bool → Given

-- A Boolean option is written without a value where it is true.
abbrev pub switch : Text → Bool → List Text
switch name true = name ∷ []
switch name false = (name ++ codes "=false") ∷ []

-- The arguments that stand for an option.
abbrev pub arguments : Given → List Text
arguments (method t) = codes "-X" ∷ t ∷ []
arguments (body t) = codes "-d" ∷ t ∷ []
arguments (header t) = codes "-H" ∷ t ∷ []
arguments (output t) = codes "-o" ∷ t ∷ []
arguments (cert t) = codes "-E" ∷ t ∷ []
arguments (redirects b) = switch (codes "-L") b
arguments (headers_only b) = switch (codes "-I") b
arguments (insecure b) = switch (codes "-k") b
arguments (save b) = switch (codes "-O") b
arguments (version b) = switch (codes "-v") b
arguments (four b) = switch (codes "-4") b
arguments (six b) = switch (codes "-6") b

abbrev pub written : List Given → List Text
written [] = []
written (o ∷ os) = arguments o ++ written os

-- The value that an option gives to a variable.
abbrev pub method_in : Given → Option Text
method_in (method t) = some t
method_in _ = none

abbrev pub body_in : Given → Option Text
body_in (body t) = some t
body_in _ = none

abbrev pub header_in : Given → Option Text
header_in (header t) = some t
header_in _ = none

abbrev pub output_in : Given → Option Text
output_in (output t) = some t
output_in _ = none

abbrev pub cert_in : Given → Option Text
cert_in (cert t) = some t
cert_in _ = none

abbrev pub redirects_in : Given → Option Bool
redirects_in (redirects b) = some b
redirects_in _ = none

abbrev pub headers_only_in : Given → Option Bool
headers_only_in (headers_only b) = some b
headers_only_in _ = none

abbrev pub insecure_in : Given → Option Bool
insecure_in (insecure b) = some b
insecure_in _ = none

abbrev pub save_in : Given → Option Bool
save_in (save b) = some b
save_in _ = none

abbrev pub version_in : Given → Option Bool
version_in (version b) = some b
version_in _ = none

abbrev pub four_in : Given → Option Bool
four_in (four b) = some b
four_in _ = none

abbrev pub six_in : Given → Option Bool
six_in (six b) = some b
six_in _ = none

-- The settings behind some options: the last value of each, and the headers of all.
abbrev pub settled : List Given → Settings → Settings
settled os s = record {
  http_method = last_or s.http_method (picks method_in os);
  post_body = last_or s.post_body (picks body_in os);
  follow_redirects = last_or s.follow_redirects (picks redirects_in os);
  only_header = last_or s.only_header (picks headers_only_in os);
  insecure = last_or s.insecure (picks insecure_in os);
  http_headers = s.http_headers ++ picks header_in os;
  save_output = last_or s.save_output (picks save_in os);
  output_file = last_or s.output_file (picks output_in os);
  show_version = last_or s.show_version (picks version_in os);
  client_cert_file = last_or s.client_cert_file (picks cert_in os);
  four_only = last_or s.four_only (picks four_in os);
  six_only = last_or s.six_only (picks six_in os);
}
