-- ===== src/Tests/Command.antt =====
-- cmd/httpstat: whole command lines.
use sockstats.Common.Text.{Text, codes, same_text}
use sockstats.Common.{
  ℕ, ◌<◌, ◌≡◌, refl, true, false, none, some, List, [], ◌∷◌, ◌++◌, Result, ok, arith, length,
}
use sockstats.Httpstat.Command.Ends.{Ends, command-Ends}
use sockstats.Httpstat.Command.{Services, Outcome, command}
use sockstats.Httpstat.CommandLine.Given.{Given, method, header, redirects, written, settled}
use sockstats.Httpstat.CommandLine.Written.{run_command-written}
use sockstats.Httpstat.CommandLine.{
  defaults, parsed, refused, needs_argument, help, classify, flag_of, name_and_value, parse_bool,
  setter_named, parse_one, parse_args, flags_of, run_command,
}
use sockstats.Httpstat.Main.{main}
use sockstats.Httpstat.Visit.{location}
use sockstats.Tests.Httpstat.{home, parse_home, asked, attached, no_error}
use sockstats.Tests.Network.{decode, decode-Shrinks, pair}

abbrev options : List Given
options =
    method (codes "-I")
    ∷ header (codes "A: 1")
    ∷ redirects true
    ∷ header (codes "B: 2")
    ∷ redirects false
    ∷ method (codes "PUT")
    ∷ []

run_command-written_example :
    (parse_args (written options ++ (codes "example.com" ∷ [])) defaults
      ≡ parsed (settled options defaults) (codes "example.com" ∷ []))
    × (run_command parse_home (written options ++ (codes "example.com" ∷ []))
        ≡ main parse_home (flags_of (settled options defaults)) (codes "example.com" ∷ []))
run_command-written_example =
    run_command-written parse_home options b'e' (codes "xample.com") [] refl

-- A value behind a =, two dashes, an option without its value, and the usage.
behind_equals :
    parse_args (codes "--X=PUT" ∷ codes "-o" ∷ []) defaults ≡ refused (needs_argument (codes "o"))
unfolding parse_args parse_one classify flag_of name_and_value setter_named same_text
behind_equals = refl

end_of_options :
    parse_args (codes "-4" ∷ codes "--" ∷ codes "-h" ∷ []) defaults
    ≡ parsed (record defaults { four_only = true }) (codes "-h" ∷ [])
unfolding parse_args parse_one classify flag_of name_and_value setter_named same_text parse_bool
end_of_options = refl

usage : parse_args (codes "-h" ∷ []) defaults ≡ help
unfolding parse_args parse_one classify flag_of name_and_value setter_named same_text
usage = refl

-- A file with a certificate and its key, and a server that always redirects to the same page.
abbrev pem_file : Text → Result Text Text
pem_file name = ok (codes "ck")

abbrev services : Services (Text × Text)
services = record {
  parse = parse_home;
  read_file = pem_file;
  decode = decode;
  key_pair = pair;
  split_host_port = λ host. none;
  make = λ method url. ok (record asked { method = method; url = url });
  open_error = no_error;
  exchange =
      λ n network tls req body. ok (record { status_code = 302; disposition = [] }, location home);
  parse_media = attached;
  create_error = no_error;
  copy_error = λ n. none;
  base_of = λ req. codes "latest";
}

pem_file-length :
    (fuel : ℕ) → 2 < fuel → (name bytes : Text) → pem_file name ≡ ok bytes → length bytes < fuel
pem_file-length fuel h name bytes e = ground arith

abbrev command_line : List Text
command_line = codes "-L" ∷ codes "-E" ∷ codes "a.pem" ∷ codes "example.com" ∷ []

command-Ends_example :
    (o : Outcome) × (command 12 services command_line ≡ some o) × Ends services command_line o
command-Ends_example =
    command-Ends 12 services command_line decode-Shrinks (pem_file-length 12 (omega arith))
      (omega arith)
