-- ===== src/Httpstat/Main.antt =====
-- cmd/httpstat/main.go: `main`, up to the visit, and the choice of the network.
pub mod Checked
use sockstats.Common.Int.{ℤ, pos, negsuc}
use sockstats.Common.Text.{Text, codes, same_text}
use sockstats.Common.{
  ◌≡◌, refl, Bool, true, false, not, ◌&&◌, ◌||◌, Option, none, some, List, [], ◌∷◌, Result, ok, err,
  if◌then◌else◌, arith,
}
use sockstats.Httpstat.Request.{Url, parse_url}
use sockstats.Httpstat.Response.{is_empty}

-- The flags that `main` and `dialContext` look at.
pub record Flags : Type 0 where
  pub http_method : Text
  pub post_body : Text
  pub only_header : Bool
  pub show_version : Bool
  pub four_only : Bool
  pub six_only : Bool

-- What `main` does: it exits with a code, it stops with a message, or it visits a URL with a method.
pub data Run : Type 0 where
  exits : ℤ → Run
  stops : Text → Run
  visits : Text → Url → Run

abbrev pub needs_body : Flags → Bool
needs_body flags =
    (same_text flags.http_method (codes "POST") || same_text flags.http_method (codes "PUT"))
    && is_empty flags.post_body

-- From the test of the body on.
unfoldable pub run_with : (Text → Result Text Url) → Flags → Text → Run
run_with parse flags arg =
    if needs_body flags
    then stops (codes "must supply post body using -d when POST or PUT is used")
    else elim (parse_url parse arg) [
      | err e ↦ stops e
      | ok url ↦ visits (if flags.only_header then codes "HEAD" else flags.http_method) url
    ]

unfoldable pub main : (Text → Result Text Url) → Flags → List Text → Run
unfolding run_with
main parse flags args =
    if flags.show_version
    then exits (pos 0)
    else if flags.four_only && flags.six_only
    then exits (negsuc 0)
    else elim args [
      | [] ↦ exits (pos 2)
      | arg ∷ [] ↦ run_with parse flags arg
      | _ ∷ _ ∷ _ ↦ exits (pos 2)
    ]

-- The network of the dialer that `visit` chooses.
unfoldable pub network_of : Flags → Text
network_of flags =
    if flags.four_only then codes "tcp4" else if flags.six_only then codes "tcp6" else codes "tcp"
