-- ===== src/Tests/Windows.antt =====
-- pkg/os and pkg/kernel on Windows, on concrete answers of the registry and the system.
use sockstats.Common.Text.{Text, codes, format_uint, same_text}
use sockstats.Common.{ℕ, ◌≡◌, refl, none, ok, err, arith, Result, if◌then◌else◌}
use sockstats.Kernel.Windows as Kernel
use sockstats.Kernel.Windows.Fields.{get_kernel_version-get}
use sockstats.OperatingSystem.Windows.{
  Key, not_exist, other_error, display_names, get_first_string_value, get_operating_system,
  is_windows_client, release_of, to_string,
}
use sockstats.OperatingSystem.Windows.Values.{get_operating_system_inj}
use sockstats.Osversion.{get}

-- A registry with one text under one name, and the revision 169.
abbrev only : Text → Text → Key
only name val = record {
  string_value = λ n. if same_text n name then ok val else err not_exist;
  integer_value = λ n. ok 169;
}

abbrev newer : Result Text Key
newer = ok (only (codes "DisplayVersion") (codes "21H2"))

abbrev older : Result Text Key
older = ok (only (codes "ReleaseId") (codes "21H2"))

abbrev server : Text
server = codes "Microsoft Windows Server Version 21H2 (OS Build 20348.169)"

newer_name : get_operating_system 3 20348 newer ≡ server
unfolding get_operating_system to_string get_first_string_value format_uint same_text
newer_name = refl

older_name : get_operating_system 2 20348 older ≡ server
unfolding get_operating_system to_string get_first_string_value format_uint same_text
older_name = refl

same_server : get_operating_system 3 20348 newer ≡ get_operating_system 2 20348 older
unfolding get_operating_system to_string get_first_string_value format_uint same_text
same_server = refl

-- Without the registry, the name has the build alone.
client_closed :
    get_operating_system 1 10240 (err (codes "access denied"))
    ≡ codes "Microsoft Windows (OS Build 10240)"
unfolding get_operating_system to_string format_uint
client_closed = refl

-- An error other than a missing name ends the search.
abbrev denied : Key
denied = record {
  string_value = λ n.
      if same_text n (codes "DisplayVersion")
      then err (other_error (codes "access denied"))
      else ok (codes "2009");
  integer_value = λ n. err not_exist;
}

denied_value :
    get_first_string_value denied display_names ≡ err (other_error (codes "access denied"))
unfolding get_first_string_value same_text
denied_value = refl

abbrev server_build : ℕ
server_build = 20348

get_operating_system_inj_example :
    (is_windows_client 3 ≡ is_windows_client 2)
    × (server_build ≡ server_build)
    × ((release_of 3 20348 newer).display_version ≡ (release_of 2 20348 older).display_version)
    × ((release_of 3 20348 newer).ubr ≡ (release_of 2 20348 older).ubr)
get_operating_system_inj_example = get_operating_system_inj 3 2 20348 20348 newer older same_server

abbrev build_lab : Text
build_lab = codes "20348.1.amd64fre.fe_release.210507-1500"

get_kernel_version-get_example :
    Kernel.get_kernel_version (ok (ok build_lab)) (ok (get 10 0 20348).version) ≡ (
      record {
        kvi = build_lab;
        major = (get 10 0 20348).major_version;
        minor = (get 10 0 20348).minor_version;
        build = (get 10 0 20348).build;
      },
      none,
    )
get_kernel_version-get_example =
    get_kernel_version-get 10 0 20348 build_lab (omega arith) (omega arith) (omega arith)

kernel-to_string :
    Kernel.to_string (Kernel.set_version 0x4f7c000a Kernel.unknown) ≡ codes "10.0 20348 (Unknown)"
unfolding Kernel.to_string format_uint
kernel-to_string = refl
