-- ===== src/Httpstat/CommandLine.antt =====
-- cmd/httpstat/main.go: the flags that `init` registers and the command line, as `flag.Parse` reads
-- it, up to the visit. `flag.ExitOnError` is the mode of the command: a refusal exits with 2.
pub mod Given
pub mod Written
use sockstats.Common.Int.{pos}
use sockstats.Common.Text.{Text, codes, same_text}
use sockstats.Common.{
  ℕ, Bool, true, false, not, ◌&&◌, ◌||◌, Option, none, some, List, [], ◌∷◌, ◌++◌, ◌==◌,
  if◌then◌else◌, Result,
}
use sockstats.Httpstat.Headers as Headers
use sockstats.Httpstat.Main.{Flags, Run, exits, main}
use sockstats.Httpstat.Request.{Url}

-- The variables of the flags.
pub record Settings : Type 0 where
  pub http_method : Text
  pub post_body : Text
  pub follow_redirects : Bool
  pub only_header : Bool
  pub insecure : Bool
  pub http_headers : List Text
  pub save_output : Bool
  pub output_file : Text
  pub show_version : Bool
  pub client_cert_file : Text
  pub four_only : Bool
  pub six_only : Bool

-- The values that they have when no flag is given.
abbrev pub defaults : Settings
defaults = record {
  http_method = codes "GET";
  post_body = [];
  follow_redirects = false;
  only_header = false;
  insecure = false;
  http_headers = [];
  save_output = false;
  output_file = [];
  show_version = false;
  client_cert_file = [];
  four_only = false;
  six_only = false;
}

-- What a flag does with its value, a string or a Boolean.
pub data Setter : Type 0 where
  text_flag : (Text → Settings → Settings) → Setter
  bool_flag : (Bool → Settings → Settings) → Setter

-- The calls in `init`, with the name of each flag.
abbrev pub registered : List (Text × Setter)
registered =
    (codes "X", text_flag (λ v s. record s { http_method = v }))
    ∷ (codes "d", text_flag (λ v s. record s { post_body = v }))
    ∷ (codes "L", bool_flag (λ b s. record s { follow_redirects = b }))
    ∷ (codes "I", bool_flag (λ b s. record s { only_header = b }))
    ∷ (codes "k", bool_flag (λ b s. record s { insecure = b }))
    ∷ (codes "H", text_flag (λ v s. record s { http_headers = Headers.set s.http_headers v }))
    ∷ (codes "O", bool_flag (λ b s. record s { save_output = b }))
    ∷ (codes "o", text_flag (λ v s. record s { output_file = v }))
    ∷ (codes "v", bool_flag (λ b s. record s { show_version = b }))
    ∷ (codes "E", text_flag (λ v s. record s { client_cert_file = v }))
    ∷ (codes "4", bool_flag (λ b s. record s { four_only = b }))
    ∷ (codes "6", bool_flag (λ b s. record s { six_only = b }))
    ∷ []

unfoldable pub setter_named : Text → List (Text × Setter) → Option Setter
setter_named name [] = none
setter_named name ((n, f) ∷ fs) =
    let rest = setter_named name fs in if same_text name n then some f else rest

-- Why package flag refuses a command line.
pub data Refusal : Type 0 where
  bad_syntax : Text → Refusal
  not_defined : Text → Refusal
  needs_argument : Text → Refusal
  not_boolean : Text → Refusal

-- `strconv.ParseBool`
abbrev pub true_words : List Text
true_words = codes "1" ∷ codes "t" ∷ codes "T" ∷ codes "TRUE" ∷ codes "true" ∷ codes "True" ∷ []

abbrev pub false_words : List Text
false_words = codes "0" ∷ codes "f" ∷ codes "F" ∷ codes "FALSE" ∷ codes "false" ∷ codes "False" ∷ []

abbrev pub is_word : Text → List Text → Bool
is_word t [] = false
is_word t (w ∷ ws) = same_text t w || is_word t ws

unfoldable pub parse_bool : Text → Option Bool
parse_bool t =
    if is_word t true_words then some true else if is_word t false_words then some false else none

-- What an argument is: the first one behind the flags, the end of the flags, or a flag, whose
-- value it may hold behind a =.
pub data Argument : Type 0 where
  no_flag : Argument
  end_of_flags : Argument
  malformed : Argument
  a_flag : Text → Option Text → Argument

-- The name and the value of a flag: the = that ends the name is not its first character.
unfoldable pub name_and_value : Text → Text × Option Text
name_and_value [] = ([], none)
name_and_value (c ∷ s) =
    let (name, value) = name_and_value s in if c == b'=' then ([], some s) else (c ∷ name, value)

unfoldable pub flag_of : Text → Argument
unfolding name_and_value
flag_of [] = malformed
flag_of (c ∷ s) =
    let (name, value) = name_and_value s in
    if c == b'-' || c == b'=' then malformed else a_flag (c ∷ name) value

abbrev pub behind_two : Text → Argument
behind_two [] = end_of_flags
behind_two (c ∷ s) = flag_of (c ∷ s)

unfoldable pub classify : Text → Argument
unfolding flag_of
classify [] = no_flag
classify (c ∷ []) = no_flag
classify (c ∷ d ∷ s) =
    if not (c == b'-') then no_flag else if d == b'-' then behind_two s else flag_of (d ∷ s)

-- What comes of one argument.
pub data Step : Type 0 where
  stops_before : Step
  stops_behind : Step
  refuses : Refusal → Step
  helps : Step
  goes : Settings → Step
  wants : Text → (Text → Settings) → Step

abbrev pub set_bool : (Bool → Settings → Settings) → Text → Settings → Step
set_bool f value s = elim (parse_bool value) [
  | none ↦ refuses (not_boolean value)
  | some b ↦ goes (f b s)
]

abbrev pub apply_setter : Text → Option Text → Option Setter → Settings → Step
apply_setter name value none s =
    if same_text name (codes "help") || same_text name (codes "h")
    then helps
    else refuses (not_defined name)
apply_setter name none (some (bool_flag f)) s = set_bool f (codes "true") s
apply_setter name (some value) (some (bool_flag f)) s = set_bool f value s
apply_setter name none (some (text_flag f)) s = wants name (λ value. f value s)
apply_setter name (some value) (some (text_flag f)) s = goes (f value s)

unfoldable pub parse_one : Text → Settings → Step
unfolding classify parse_bool setter_named
parse_one arg s = elim (classify arg) [
  | no_flag ↦ stops_before
  | end_of_flags ↦ stops_behind
  | malformed ↦ refuses (bad_syntax arg)
  | a_flag name value ↦ apply_setter name value (setter_named name registered) s
]

-- What comes of the command line: the settings and `flag.Args()`, a refusal, or the usage.
pub data Parsed : Type 0 where
  parsed : Settings → List Text → Parsed
  refused : Refusal → Parsed
  help : Parsed

-- `flag.Parse`
unfoldable pub parse_args : List Text → Settings → Parsed
unfolding parse_one
parse_args [] s = parsed s []
parse_args (arg ∷ []) s = elim (parse_one arg s) [
  | stops_before ↦ parsed s (arg ∷ [])
  | stops_behind ↦ parsed s []
  | refuses r ↦ refused r
  | helps ↦ help
  | goes s' ↦ parsed s' []
  | wants name f ↦ refused (needs_argument name)
]
parse_args (arg ∷ v ∷ args) s = elim (parse_one arg s) [
  | stops_before ↦ parsed s (arg ∷ v ∷ args)
  | stops_behind ↦ parsed s (v ∷ args)
  | refuses r ↦ refused r
  | helps ↦ help
  | goes s' ↦ parse_args (v ∷ args) s'
  | wants name f ↦ parse_args args (f v)
]

abbrev pub flags_of : Settings → Flags
flags_of s = record {
  http_method = s.http_method;
  post_body = s.post_body;
  only_header = s.only_header;
  show_version = s.show_version;
  four_only = s.four_only;
  six_only = s.six_only;
}

-- The command: `main` with the command line.
abbrev pub run_parsed : (Text → Result Text Url) → Parsed → Run
run_parsed parse (parsed s args) = main parse (flags_of s) args
run_parsed parse (refused r) = exits (pos 2)
run_parsed parse help = exits (pos 0)

unfoldable pub run_command : (Text → Result Text Url) → List Text → Run
unfolding parse_args
run_command parse args = run_parsed parse (parse_args args defaults)
