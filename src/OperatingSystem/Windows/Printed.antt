-- ===== src/OperatingSystem/Windows/Printed.antt =====
-- The print of a Windows release tells its fields apart.
use mathlib.Core.List.{append_assoc, append_cancel_left, append_cancel_right, tail-eq_of_cons-eq}
use sockstats.Common.Text.{
  Text, codes, is_digit, format_uint, value, value-format_uint, format_uint-Passes, Passes, Stops,
  take_while, drop_while, take_while-append, drop_while-append,
}
use sockstats.Common.{
  ℕ, zero, suc, ◌≡◌, refl, sym, ap, ◌∙◌, Bool, true, false, not, [], ◌∷◌, ◌++◌, ◌==◌, arith,
  All-map, All-append,
}
use sockstats.OperatingSystem.Windows.{
  WindowsOsRelease, edition_part, version_part, ubr_part, to_string,
}

abbrev no_space : ℕ → Bool
no_space c = not (c == b' ')

space_behind : (s t t' : Text) → Passes no_space t → t ≡ s ++ (b' ' ∷ t') → ⊥
space_behind [] t t' h e = ground arith
space_behind (c ∷ s) [] t' h e = ground arith
space_behind (c ∷ s) (d ∷ t) t' h e = ground (arith, space_behind s t t')

-- Texts that are equal agree in front of their last spaces and behind them.
last_space :
    (s s' t t' : Text)
    → Passes no_space t
    → Passes no_space t'
    → s ++ (b' ' ∷ t) ≡ s' ++ (b' ' ∷ t')
    → (s ≡ s') × (t ≡ t')
last_space [] [] t t' h h' e = ground arith
last_space [] (c ∷ s') t t' h h' e = absurd (space_behind s' t t' h (tail-eq_of_cons-eq e))
last_space (c ∷ s) [] t t' h h' e = absurd (space_behind s t' t h' (sym (tail-eq_of_cons-eq e)))
last_space (c ∷ s) (c' ∷ s') t t' h h' e = ground (arith, last_space s s' t t' h h')

-- What follows the last space.
abbrev numbers : ℕ → ℕ → Text
numbers build ubr = format_uint build ++ (ubr_part ubr ++ (b')' ∷ []))

digits-Passes : (n : ℕ) → Passes no_space (format_uint n)
digits-Passes n = All-map (λ c h. ground arith) (format_uint n) (format_uint-Passes n)

ubr_part-suc : (n : ℕ) → ubr_part (suc n) ≡ b'.' ∷ format_uint (suc n)
ubr_part-suc n = ground arith

numbers-Passes : (build ubr : ℕ) → Passes no_space (numbers build ubr)
numbers-Passes build zero = All-append _ (format_uint build) _ (digits-Passes build) (refl, tt)
numbers-Passes build (suc n) = All-append _ (format_uint build) _ (digits-Passes build) (
    rw (ubr_part-suc n)
      (refl, All-append _ (format_uint (suc n)) _ (digits-Passes (suc n)) (refl, tt)))

-- The number in front of the first character that is no digit.
abbrev read_front : Text → ℕ
read_front t = value 0 (take_while is_digit t)

read_front-append :
    (n : ℕ) (rest : Text) → Stops is_digit rest → read_front (format_uint n ++ rest) ≡ n
read_front-append n rest h =
    ap (value 0) (take_while-append is_digit (format_uint n) rest (format_uint-Passes n) h)
    ∙ value-format_uint n

abbrev behind_front : Text → Text
behind_front [] = []
behind_front (c ∷ t) = t

rest-Stops : (ubr : ℕ) → Stops is_digit (ubr_part ubr ++ (b')' ∷ []))
rest-Stops zero = refl
rest-Stops (suc n) = rw (ubr_part-suc n) refl

read_front-rest : (ubr : ℕ) → read_front (behind_front (ubr_part ubr ++ (b')' ∷ []))) ≡ ubr
unfolding take_while
read_front-rest zero = refl
read_front-rest (suc n) = rw (ubr_part-suc n) (read_front-append (suc n) (b')' ∷ []) refl)

numbers_inj :
    (build build' ubr ubr' : ℕ)
    → numbers build ubr ≡ numbers build' ubr'
    → (build ≡ build') × (ubr ≡ ubr')
numbers_inj build build' ubr ubr' e = (
  sym (read_front-append build _ (rest-Stops ubr))
      ∙ ap read_front e
      ∙ read_front-append build' _ (rest-Stops ubr'),
  sym (read_front-rest ubr)
      ∙ ap (λ t. read_front (behind_front t))
          (sym (rest build ubr) ∙ ap (drop_while is_digit) e ∙ rest build' ubr')
      ∙ read_front-rest ubr',
)
  where
    rest : (b u : ℕ) → drop_while is_digit (numbers b u) ≡ ubr_part u ++ (b')' ∷ [])
    rest b u = drop_while-append is_digit (format_uint b) _ (format_uint-Passes b) (rest-Stops u)

version_part_inj : (v v' : Text) → version_part v ≡ version_part v' → v ≡ v'
version_part_inj [] [] e = refl
version_part_inj [] (c ∷ v') e = ground arith
version_part_inj (c ∷ v) [] e = ground arith
version_part_inj (c ∷ v) (c' ∷ v') e = append_cancel_left (codes " Version ") _ _ e

front_inj :
    (b b' : Bool) (v v' : Text)
    → edition_part b ++ version_part v ≡ edition_part b' ++ version_part v'
    → (b ≡ b') × (v ≡ v')
front_inj false false v v' e = (refl, version_part_inj v v' e)
front_inj false true [] v' e = ground arith
front_inj false true (c ∷ v) v' e = ground arith
front_inj true false v [] e = ground arith
front_inj true false v (c ∷ v') e = ground arith
front_inj true true v v' e =
    (refl, version_part_inj v v' (append_cancel_left (codes " Server") _ _ e))

abbrev front : WindowsOsRelease → Text
front r = edition_part r.is_server ++ version_part r.display_version

regroup : (a b c k t : Text) → a ++ (b ++ (c ++ (k ++ t))) ≡ ((a ++ (b ++ c)) ++ k) ++ t
regroup a b c k t = simp append_assoc

to_string_lem :
    (r : WindowsOsRelease)
    → to_string r
      ≡ ((codes "Microsoft Windows" ++ front r) ++ codes " (OS Build")
        ++ (b' ' ∷ numbers r.build r.ubr)
unfolding to_string
to_string_lem r =
    regroup (codes "Microsoft Windows") (edition_part r.is_server) (version_part r.display_version)
      (codes " (OS Build") (b' ' ∷ numbers r.build r.ubr)

-- Two releases of Windows with the same print are the same in all of their fields: whether it is a
-- server, the display version, the build and the revision.
pub to_string_inj :
    (r r' : WindowsOsRelease)
    → to_string r ≡ to_string r'
    → (r.is_server ≡ r'.is_server)
      × (r.display_version ≡ r'.display_version)
      × (r.build ≡ r'.build)
      × (r.ubr ≡ r'.ubr)
to_string_inj r r' e =
    let (lead, last) =
      last_space _ _ _ _ (numbers-Passes r.build r.ubr) (numbers-Passes r'.build r'.ubr)
        (sym (to_string_lem r) ∙ e ∙ to_string_lem r') in
    let (server, version) =
      front_inj r.is_server r'.is_server r.display_version r'.display_version (
        append_cancel_left (codes "Microsoft Windows") _ _
          (append_cancel_right _ _ (codes " (OS Build") lead)) in
    let (build, ubr) = numbers_inj r.build r'.build r.ubr r'.ubr last in
    (server, version, build, ubr)
