-- ===== src/Common/Text/Strings.antt =====
-- What the programs use of Go's packages strings and bytes; texts are lists of code points.
use sockstats.Common.Tests.{ltb, ◌==◌, if◌then◌else◌}
use sockstats.Common.Text.Defs.{Text}
use Prim.Native.Nat.{ℕ}
use mathlib.Core.Bool.{Bool, true, false, ◌&&◌, ◌||◌}
use mathlib.Core.List.{List, [], ◌∷◌, ◌++◌, reverse}
use mathlib.Core.Option.{Option, none, some}

-- `bytes.Split` at a byte: the part in front of the first one, and the parts behind it.
unfoldable pub split : ℕ → Text → Text × List Text
split sep [] = ([], [])
split sep (c ∷ s) =
    let (part, parts) = split sep s in if c == sep then ([], part ∷ parts) else (c ∷ part, parts)

abbrev pub parts : ℕ → Text → List Text
parts sep s = let (part, more) = split sep s in part ∷ more

-- `strings.CutPrefix`
unfoldable pub cut_prefix : Text → Text → Option Text
cut_prefix s [] = some s
cut_prefix [] (p ∷ ps) = none
cut_prefix (c ∷ s) (p ∷ ps) = let rest = cut_prefix s ps in if c == p then rest else none

abbrev pub is_some : {A : Type 0} → Option A → Bool
is_some none = false
is_some (some _) = true

-- `bytes.HasSuffix`
unfoldable pub has_suffix : Text → Text → Bool
has_suffix s suffix = is_some (cut_prefix (reverse s) (reverse suffix))

-- `strings.TrimLeft` and `strings.TrimRight` by a test, and `strings.Trim`.
unfoldable pub trim_left : (ℕ → Bool) → Text → Text
trim_left cut [] = []
trim_left cut (c ∷ s) = let rest = trim_left cut s in if cut c then rest else c ∷ s

-- A character in front of the trimmed rest.
abbrev pub keep_right : (ℕ → Bool) → ℕ → Text → Text
keep_right cut c [] = if cut c then [] else c ∷ []
keep_right cut c (d ∷ t) = c ∷ d ∷ t

unfoldable pub trim_right : (ℕ → Bool) → Text → Text
trim_right cut [] = []
trim_right cut (c ∷ s) = keep_right cut c (trim_right cut s)

unfoldable pub trim : (ℕ → Bool) → Text → Text
unfolding trim_left trim_right
trim cut s = trim_right cut (trim_left cut s)

abbrev pub has_prefix : Text → Text → Bool
has_prefix s prefix = is_some (cut_prefix s prefix)

-- `strings.Contains`
unfoldable pub contains : Text → Text → Bool
contains [] sub = has_prefix [] sub
contains (c ∷ s) sub = let rest = contains s sub in if has_prefix (c ∷ s) sub then true else rest

abbrev pub cons_front : ℕ → Option (Text × Text) → Option (Text × Text)
cons_front c none = none
cons_front c (some (s, t)) = some (c ∷ s, t)

-- `strings.Index` of a text of one character, as the texts in front of it and from it on.
unfoldable pub cut_at : ℕ → Text → Option (Text × Text)
cut_at sep [] = none
cut_at sep (c ∷ s) =
    let rest = cut_at sep s in if c == sep then some ([], c ∷ s) else cons_front c rest

-- `strings.Join`
unfoldable pub join_texts : List Text → Text → Text
join_texts [] sep = []
join_texts (s ∷ []) sep = s
join_texts (s ∷ r ∷ rs) sep = s ++ sep ++ join_texts (r ∷ rs) sep

-- `a == b` and `a < b` of strings.
unfoldable pub same_text : Text → Text → Bool
same_text [] [] = true
same_text [] (d ∷ t) = false
same_text (c ∷ s) [] = false
same_text (c ∷ s) (d ∷ t) = c == d && same_text s t

unfoldable pub less_text : Text → Text → Bool
less_text s [] = false
less_text [] (d ∷ t) = true
less_text (c ∷ s) (d ∷ t) = ltb c d || (c == d && less_text s t)
