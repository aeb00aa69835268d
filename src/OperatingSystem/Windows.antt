-- ===== src/OperatingSystem/Windows.antt =====
-- pkg/os/windows_os_string.go and operatingsystem_windows.go: the name of a Windows system. The
-- registry's answers and those of `RtlGetVersion` are arguments.
pub mod Printed
pub mod Values
use sockstats.Osversion as Osversion
use sockstats.Common.Text.{Text, codes, format_uint}
use sockstats.Common.{
  ℕ, ◌≡◌, Bool, true, false, not, Option, none, some, List, [], ◌∷◌, ◌++◌, ltb, ◌==◌, if◌then◌else◌,
  Result, ok, err,
}

-- `build` is a uint32, `ubr` a uint64.
pub record WindowsOsRelease : Type 0 where
  pub is_server : Bool
  pub display_version : Text
  pub build : ℕ
  pub ubr : ℕ

abbrev pub edition_part : Bool → Text
edition_part is_server = if is_server then codes " Server" else []

abbrev pub version_part : Text → Text
version_part [] = []
version_part (c ∷ v) = codes " Version " ++ (c ∷ v)

abbrev pub ubr_part : ℕ → Text
ubr_part ubr = if ltb 0 ubr then b'.' ∷ format_uint ubr else []

-- `(*windowsOSRelease).String`
unfoldable pub to_string : WindowsOsRelease → Text
to_string r =
    codes "Microsoft Windows"
    ++ (edition_part r.is_server
        ++ (version_part r.display_version
            ++ (codes " (OS Build " ++ (format_uint r.build ++ (ubr_part r.ubr ++ (b')' ∷ []))))))

-- An error of a registry value: `ErrNotExist`, or another one.
pub data ValueError : Type 0 where
  not_exist : ValueError
  other_error : Text → ValueError

-- An open registry key: the answers of `GetStringValue` and of `GetIntegerValue`.
pub record Key : Type 0 where
  pub string_value : Text → Result ValueError Text
  pub integer_value : Text → Result ValueError ℕ

-- What the loop makes of the answer for one name; `rest` is the result of the names behind it.
abbrev pub answer_or : Result ValueError Text → Result ValueError Text → Result ValueError Text
answer_or (ok val) rest = ok val
answer_or (err not_exist) rest = rest
answer_or (err (other_error e)) rest = err (other_error e)

unfoldable pub get_first_string_value : Key → List Text → Result ValueError Text
get_first_string_value key [] = err not_exist
get_first_string_value key (n ∷ names) =
    answer_or (key.string_value n) (get_first_string_value key names)

abbrev pub value_or : {A : Type 0} → A → Result ValueError A → A
value_or before (ok val) = val
value_or before (err _) = before

-- The names of the display version, the newer one first.
abbrev pub display_names : List Text
display_names = codes "DisplayVersion" ∷ codes "ReleaseId" ∷ []

abbrev pub registry_values : Result Text Key → WindowsOsRelease → WindowsOsRelease
registry_values (err _) rel = rel
registry_values (ok key) rel = record rel {
  display_version = value_or rel.display_version (get_first_string_value key display_names);
  ubr = value_or rel.ubr (key.integer_value (codes "UBR"));
}

abbrev pub ver_nt_workstation : ℕ
ver_nt_workstation = 1

-- The release that `GetOperatingSystem` prints, from `ProductType` and `BuildNumber`.
abbrev pub release_of : ℕ → ℕ → Result Text Key → WindowsOsRelease
release_of product_type build_number opened = registry_values opened record {
  is_server = not (product_type == ver_nt_workstation);
  display_version = [];
  build = build_number;
  ubr = 0;
}

-- `GetOperatingSystem`, whose error is always nil.
unfoldable pub get_operating_system : ℕ → ℕ → Result Text Key → Text
unfolding to_string get_first_string_value
get_operating_system product_type build_number opened =
    to_string (release_of product_type build_number opened)

-- `IsWindowsClient`
unfoldable pub is_windows_client : ℕ → Bool
is_windows_client product_type = product_type == ver_nt_workstation

-- `GetOperatingSystemVersion`, of the three numbers of `RtlGetVersion`; its error is always nil.
unfoldable pub get_operating_system_version : ℕ → ℕ → ℕ → Text
get_operating_system_version major minor build_number =
    Osversion.to_string (Osversion.get major minor build_number)

-- `IsContainerized`, whose error is always nil.
unfoldable pub is_containerized : Bool
is_containerized = false
