-- ===== src/Httpstat/Command.antt =====
-- cmd/httpstat/main.go: the whole command, from its command line to the last of its visits.
pub mod Ends
use sockstats.Common.Int.{ℤ, pos}
use sockstats.Common.Text.{Text}
use sockstats.Common.{ℕ, Option, none, some, List, Result}
use sockstats.Httpstat.CommandLine.{
  Settings, defaults, Parsed, parsed, refused, help, parse_args, flags_of,
}
use sockstats.Httpstat.Main.{Run, exits, stops, visits, main, network_of}
use sockstats.Httpstat.Request.{Url, Request, Body}
use sockstats.Httpstat.Response.{Response, MediaParser}
use sockstats.Httpstat.Tls.{Decoder, TlsConfig, read_client_cert}
use sockstats.Httpstat.Visit.{Location, Env, Ending, Trace, visit}

-- What the command uses that is not its own: `url.Parse`, the files, the packages pem, tls, net,
-- net/http and mime.
pub record Services (Cert : Type 0) : Type 0 where
  pub parse : Text → Result Text Url
  pub read_file : Text → Result Text Text
  pub decode : Decoder
  pub key_pair : Text → Text → Result Text Cert
  pub split_host_port : Text → Option (Text × Text)
  pub make : Text → Url → Result Text Request
  pub open_error : Text → Option Text
  pub exchange :
      ℕ → Text → Option (TlsConfig Cert) → Request → Body → Result Text (Response × Location)
  pub parse_media : MediaParser
  pub create_error : Text → Option Text
  pub copy_error : ℕ → Option Text
  pub base_of : Request → Text

-- The command exits with a code, it stops with a message, or it has visited URLs.
pub data Outcome : Type 0 where
  exited : ℤ → Outcome
  stopped : Text → Outcome
  visited : List Url → Ending → Outcome

abbrev pub outcome_of : Option Trace → Option Outcome
outcome_of none = none
outcome_of (some (urls, ending)) = some (visited urls ending)

module _ {Cert : Type 0} where
  -- What the visits use, with the certificates of the file of -E.
  abbrev pub env_of : Services Cert → Settings → Result Text (List Cert) → Env Cert
  env_of sv s certs = record {
    http_headers = s.http_headers;
    post_body = s.post_body;
    follow_redirects = s.follow_redirects;
    save_flags = record { save_output = s.save_output; output_file = s.output_file };
    insecure = s.insecure;
    network = network_of (flags_of s);
    client_certs = λ n. certs;
    split_host_port = sv.split_host_port;
    make = sv.make;
    open_error = sv.open_error;
    exchange = sv.exchange;
    parse_media = sv.parse_media;
    create_error = sv.create_error;
    copy_error = sv.copy_error;
    base_of = sv.base_of;
  }

  abbrev pub visit_with :
      ℕ → Services Cert → Settings → Text → Url → Option (Result Text (List Cert)) → Option Outcome
  visit_with fuel sv s method url none = none
  visit_with fuel sv s method url (some certs) =
      outcome_of (visit fuel (env_of sv s certs) method 0 url)

  -- From what `main` does on.
  unfoldable pub finish : ℕ → Services Cert → Settings → Run → Option Outcome
  finish fuel sv s (exits c) = some (exited c)
  finish fuel sv s (stops e) = some (stopped e)
  finish fuel sv s (visits method url) =
      visit_with fuel sv s method url
        (read_client_cert fuel sv.read_file sv.decode sv.key_pair s.client_cert_file)

  -- The command, on fuel for its visits and for the loop of `readClientCert`.
  unfoldable pub command : ℕ → Services Cert → List Text → Option Outcome
  unfolding finish
  command fuel sv args = elim (parse_args args defaults) [
    | parsed s rest ↦ finish fuel sv s (main sv.parse (flags_of s) rest)
    | refused r ↦ some (exited (pos 2))
    | help ↦ some (exited (pos 0))
  ]
