-- ===== src/Httpstat/Headers.antt =====
-- cmd/httpstat/main.go: the type `headers`, its order, and the header lines that `visit` prints.
pub mod Order
pub mod Sorting
pub mod Insertion
pub mod Unordered
use sockstats.Common.Text.{Text, codes, join_texts, same_text, less_text}
use sockstats.Common.{Bool, true, false, ◌||◌, List, [], ◌∷◌, ◌++◌, map, if◌then◌else◌}

-- `(headers).String`: the loop, with the texts appended so far.
unfoldable pub options_of : List Text → List Text → List Text
options_of [] o = o
options_of (v ∷ h) o = options_of h (o ++ (codes "-H " ++ v) ∷ [])

unfoldable pub string : List Text → Text
unfolding options_of
string h = join_texts (options_of h []) (codes " ")

-- `(*headers).Set`: the headers that it leaves.
unfoldable pub set : List Text → Text → List Text
set h v = h ++ v ∷ []

abbrev pub server : Text
server = codes "Server"

-- The names of the first `case` in `endtoend`.
abbrev pub hop_names : List Text
hop_names =
    codes "Connection"
    ∷ codes "Keep-Alive"
    ∷ codes "Proxy-Authenticate"
    ∷ codes "Proxy-Authorization"
    ∷ codes "TE"
    ∷ codes "Trailers"
    ∷ codes "Transfer-Encoding"
    ∷ codes "Upgrade"
    ∷ []

abbrev pub is_in : Text → List Text → Bool
is_in n [] = false
is_in n (m ∷ ms) = same_text n m || is_in n ms

unfoldable pub end_to_end : Text → Bool
end_to_end n = if is_in n hop_names then false else true

abbrev pub same_bool : Bool → Bool → Bool
same_bool true b = b
same_bool false true = false
same_bool false false = true

-- `(headers).Less`, of the two names.
unfoldable pub less : Text → Text → Bool
unfolding end_to_end
less a b =
    if same_text a server
    then true
    else if same_text b server
    then false
    else if same_bool (end_to_end a) (end_to_end b)
    then less_text a b
    else end_to_end a

-- The lines that `visit` prints for the headers of a response, from the names in the order that
-- the range over the map gives, without the colours. `sort.Sort` is an argument.
unfoldable pub header_lines : (List Text → List Text) → (Text → List Text) → List Text → List Text
header_lines sort header names =
    map (λ k. (k ++ codes ":") ++ codes " " ++ join_texts (header k) (codes ",")) (sort names)
