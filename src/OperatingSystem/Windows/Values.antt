-- ===== src/OperatingSystem/Windows/Values.antt =====
-- pkg/os/operatingsystem_windows.go: which of the registry's values is taken, and what the name of
-- the system tells.
use sockstats.Common.Text.{Text}
use sockstats.Common.{
  ℕ, ◌≡◌, refl, sym, ap, ◌∙◌, ◌↔◌, Bool, not, List, [], ◌∷◌, ◌++◌, arith, All, Result, ok, err,
  ◌==◌,
}
use sockstats.OperatingSystem.Windows.Printed.{to_string_inj}
use sockstats.OperatingSystem.Windows.{
  WindowsOsRelease, Key, ValueError, not_exist, other_error, answer_or, get_first_string_value,
  registry_values, release_of, ver_nt_workstation, get_operating_system, is_windows_client,
}

-- The value of one of the names, all the names in front of which do not exist.
abbrev IsFirst : Key → List Text → Text → Type 0
IsFirst key names val =
    (front : List Text) × (n : Text) × (back : List Text) × (names ≡ front ++ (n ∷ back))
    × All (λ m. key.string_value m ≡ err not_exist) front
    × (key.string_value n ≡ ok val)

module _ (key : Key) where
  found-IsFirst :
      (names : List Text) (val : Text)
      → get_first_string_value key names ≡ ok val
      → IsFirst key names val
  unfolding get_first_string_value
  found-IsFirst [] val h = ground arith
  found-IsFirst (n ∷ names) val h = go (key.string_value n) refl (found-IsFirst names val)
    where
      go :
          (a : Result ValueError Text)
          → key.string_value n ≡ a
          → (get_first_string_value key names ≡ ok val → IsFirst key names val)
          → IsFirst key (n ∷ names) val
      go (ok v) e later = ([], n, names, refl, tt, ground (arith, e, h))
      go (err not_exist) e later =
          let (front, m, back, split, missing, there) =
            later (sym (ap (λ a. answer_or a (get_first_string_value key names)) e) ∙ h) in
          (n ∷ front, m, back, ap (◌∷◌ n) split, (e, missing), there)
      go (err (other_error w)) e later = ground (arith, e, h)

  IsFirst-found :
      (front back : List Text) (n val : Text)
      → All (λ m. key.string_value m ≡ err not_exist) front
      → key.string_value n ≡ ok val
      → get_first_string_value key (front ++ (n ∷ back)) ≡ ok val
  unfolding get_first_string_value
  IsFirst-found [] back n val missing there =
      ap (λ a. answer_or a (get_first_string_value key back)) there
  IsFirst-found (m ∷ front) back n val (e, missing) there =
      ap (λ a. answer_or a (get_first_string_value key (front ++ (n ∷ back)))) e
      ∙ IsFirst-found front back n val missing there

-- `getFirstStringValue` returns a value exactly if it is the value of one of the names and no name
-- in front of that one exists; any other error ends the search.
get_first_string_value-IsFirst :
    (key : Key) (names : List Text) (val : Text)
    → (get_first_string_value key names ≡ ok val) ↔ IsFirst key names val
get_first_string_value-IsFirst key names val = (
  found-IsFirst key names val,
  λ (front, n, back, split, missing, there).
      ap (get_first_string_value key) split ∙ IsFirst-found key front back n val missing there,
)

registry_values-keeps :
    (opened : Result Text Key) (rel : WindowsOsRelease)
    → ((registry_values opened rel).is_server ≡ rel.is_server)
      × ((registry_values opened rel).build ≡ rel.build)
registry_values-keeps (err e) rel = (refl, refl)
registry_values-keeps (ok key) rel = (refl, refl)

not_inj : (a b : Bool) → not a ≡ not b → a ≡ b
not_inj a b e = ground arith

-- Two runs of `GetOperatingSystem` that give the same name were on systems that are both a client
-- or both not, that have the same build number, and for which the same display version and
-- revision are kept, whatever the registry answered to either.
pub get_operating_system_inj :
    (product_type product_type' build build' : ℕ) (opened opened' : Result Text Key)
    → get_operating_system product_type build opened
      ≡ get_operating_system product_type' build' opened'
    → (is_windows_client product_type ≡ is_windows_client product_type')
      × (build ≡ build')
      × ((release_of product_type build opened).display_version
          ≡ (release_of product_type' build' opened').display_version)
      × ((release_of product_type build opened).ubr ≡ (release_of product_type' build' opened').ubr)
unfolding get_operating_system is_windows_client
get_operating_system_inj p p' b b' o o' e =
    let (server, version, same_build, ubr) = to_string_inj _ _ e in
    (
      not_inj (p == ver_nt_workstation) (p' == ver_nt_workstation)
          (sym (registry_values-keeps o _).0 ∙ server ∙ (registry_values-keeps o' _).0),
      sym (registry_values-keeps o _).1 ∙ same_build ∙ (registry_values-keeps o' _).1,
      version,
      ubr,
    )
