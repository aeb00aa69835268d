-- ===== src/Httpstat/CommandLine/Written.antt =====
-- cmd/httpstat/main.go: a command line that is written from options is read as these options.
use mathlib.Core.List.{append_assoc, append-nil}
use sockstats.Common.Text.{Text, codes, same_text}
use sockstats.Common.{
  ℕ, ◌==◌, ◌≡◌, refl, sym, ap, ◌∙◌, true, false, Option, none, some, List, [], ◌∷◌, ◌++◌, or_old,
  picks, Result,
}
use sockstats.Httpstat.CommandLine.{
  Settings, defaults, goes, stops_before, classify, flag_of, name_and_value, parse_bool,
  setter_named, parse_one, parsed, parse_args, flags_of, run_command, run_parsed,
}
use sockstats.Httpstat.CommandLine.Given.{
  Given, method, body, header, output, cert, redirects, headers_only, insecure, save, version, four,
  six, arguments, written, method_in, body_in, header_in, output_in, cert_in, redirects_in,
  headers_only_in, insecure_in, save_in, version_in, four_in, six_in, settled,
}
use sockstats.Httpstat.Headers as Headers
use sockstats.Httpstat.Main.{main}
use sockstats.Httpstat.Request.{Url}

-- The settings behind one option.
abbrev with_header : Option Text → List Text → List Text
with_header none hs = hs
with_header (some h) hs = hs ++ (h ∷ [])

abbrev applied : Given → Settings → Settings
applied o s = record {
  http_method = or_old (method_in o) s.http_method;
  post_body = or_old (body_in o) s.post_body;
  follow_redirects = or_old (redirects_in o) s.follow_redirects;
  only_header = or_old (headers_only_in o) s.only_header;
  insecure = or_old (insecure_in o) s.insecure;
  http_headers = with_header (header_in o) s.http_headers;
  save_output = or_old (save_in o) s.save_output;
  output_file = or_old (output_in o) s.output_file;
  show_version = or_old (version_in o) s.show_version;
  client_cert_file = or_old (cert_in o) s.client_cert_file;
  four_only = or_old (four_in o) s.four_only;
  six_only = or_old (six_in o) s.six_only;
}

-- A flag that has its value, or that takes the next argument.
parse_args-goes :
    (arg : Text) (args : List Text) (s s' : Settings)
    → parse_one arg s ≡ goes s'
    → parse_args (arg ∷ args) s ≡ parse_args args s'
unfolding parse_args
parse_args-goes arg [] s s' h = rw (h, parse_args) refl
parse_args-goes arg (v ∷ args) s s' h = rw (h, parse_args) refl

module _ (args : List Text) where
  given-parse :
      (s : Settings) (o : Given)
      → parse_args (arguments o ++ args) s ≡ parse_args args (applied o s)
  unfolding parse_args parse_one classify flag_of name_and_value parse_bool setter_named same_text
      Headers.set
  given-parse s (method t) = refl
  given-parse s (body t) = refl
  given-parse s (header t) = refl
  given-parse s (output t) = refl
  given-parse s (cert t) = refl
  given-parse s (redirects true) = parse_args-goes (codes "-L") args s _ refl
  given-parse s (redirects false) = parse_args-goes (codes "-L=false") args s _ refl
  given-parse s (headers_only true) = parse_args-goes (codes "-I") args s _ refl
  given-parse s (headers_only false) = parse_args-goes (codes "-I=false") args s _ refl
  given-parse s (insecure true) = parse_args-goes (codes "-k") args s _ refl
  given-parse s (insecure false) = parse_args-goes (codes "-k=false") args s _ refl
  given-parse s (save true) = parse_args-goes (codes "-O") args s _ refl
  given-parse s (save false) = parse_args-goes (codes "-O=false") args s _ refl
  given-parse s (version true) = parse_args-goes (codes "-v") args s _ refl
  given-parse s (version false) = parse_args-goes (codes "-v=false") args s _ refl
  given-parse s (four true) = parse_args-goes (codes "-4") args s _ refl
  given-parse s (four false) = parse_args-goes (codes "-4=false") args s _ refl
  given-parse s (six true) = parse_args-goes (codes "-6") args s _ refl
  given-parse s (six false) = parse_args-goes (codes "-6=false") args s _ refl

settled-applied :
    (o : Given) (os : List Given) (s : Settings) → settled os (applied o s) ≡ settled (o ∷ os) s
settled-applied (method v) os s = refl
settled-applied (body v) os s = refl
settled-applied (header v) os s =
    ap (λ hs. record (settled os s) { http_headers = hs })
      (append_assoc s.http_headers (v ∷ []) (picks header_in os))
settled-applied (output v) os s = refl
settled-applied (cert v) os s = refl
settled-applied (redirects v) os s = refl
settled-applied (headers_only v) os s = refl
settled-applied (insecure v) os s = refl
settled-applied (save v) os s = refl
settled-applied (version v) os s = refl
settled-applied (four v) os s = refl
settled-applied (six v) os s = refl

parse_args-written :
    (os : List Given) (args : List Text) (s : Settings)
    → parse_args (written os ++ args) s ≡ parse_args args (settled os s)
parse_args-written [] args s =
    ap (λ hs. parse_args args (record s { http_headers = hs })) (sym (append-nil s.http_headers))
parse_args-written (o ∷ os) args s =
    ap (λ l. parse_args l s) (append_assoc (arguments o) (written os) args)
    ∙ given-parse (written os ++ args) s o
    ∙ parse_args-written os args (applied o s)
    ∙ ap (parse_args args) (settled-applied o os s)

parse_one-plain :
    (c : ℕ) (t : Text) (s : Settings) → (c == b'-') ≡ false → parse_one (c ∷ t) s ≡ stops_before
unfolding parse_one classify
parse_one-plain c [] s h = refl
parse_one-plain c (d ∷ t) s h = rw (h, parse_one, classify) refl

parse_args-plain :
    (c : ℕ) (t : Text) (args : List Text) (s : Settings)
    → (c == b'-') ≡ false
    → parse_args ((c ∷ t) ∷ args) s ≡ parsed s ((c ∷ t) ∷ args)
unfolding parse_args
parse_args-plain c t [] s h = rw (parse_one-plain c t s h, parse_args) refl
parse_args-plain c t (v ∷ args) s h = rw (parse_one-plain c t s h, parse_args) refl

-- Whatever options are given, in whatever order and however often, each in the way that `arguments`
-- writes it, ahead of arguments of which the first one starts with no dash: no value is taken for a
-- flag, even if it starts with a dash, each setting is the last value that is given to it or else
-- its default, the headers are all of those given, in their order, `flag.Args()` are the arguments behind
-- the options, and the command does what `main` does with these settings and arguments.
pub run_command-written :
    (parse : Text → Result Text Url) (os : List Given) (c : ℕ) (t : Text) (args : List Text)
    → (c == b'-') ≡ false
    → (parse_args (written os ++ ((c ∷ t) ∷ args)) defaults
        ≡ parsed (settled os defaults) ((c ∷ t) ∷ args))
      × (run_command parse (written os ++ ((c ∷ t) ∷ args))
          ≡ main parse (flags_of (settled os defaults)) ((c ∷ t) ∷ args))
unfolding run_command
run_command-written parse os c t args h =
    let read =
      parse_args-written os ((c ∷ t) ∷ args) defaults
      ∙ parse_args-plain c t args (settled os defaults) h in
    (read, ap (run_parsed parse) read)
