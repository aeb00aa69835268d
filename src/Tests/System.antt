-- ===== src/Tests/System.antt =====
-- pkg/os and pkg/osversion on concrete files and versions.
use sockstats.Common.Text.{Text, codes, format_uint}
use sockstats.Common.{◌≡◌, refl, true, false, Result, ok, err}
use sockstats.OperatingSystem.Cgroup.{any_foreign, is_foreign, is_containerized}
use sockstats.Common.Text.{split, cut_prefix, has_suffix, trim, trim_left, trim_right}
use sockstats.OperatingSystem.Lines.{scan_lines, max_line}
use sockstats.OperatingSystem.Release.{
  OpenError, not_exist, found, file_of, read_line, read_lines, get_value_from_os_release,
  get_value_from_os_release-last,
}
use sockstats.Osversion.{OsVersion, get, to_string, supported_from, check_host_and_container_compat}

abbrev server_2022 : OsVersion
server_2022 = get 10 0 20348

abbrev server_2025 : OsVersion
server_2025 = get 10 0 26100

server_2022-to_string : to_string server_2022 ≡ codes "10.0.20348"
unfolding to_string get format_uint
server_2022-to_string = refl

server_2025-runs : check_host_and_container_compat server_2025 server_2022 ≡ true
unfolding check_host_and_container_compat supported_from get
server_2025-runs = refl

server_2022-runs-not : check_host_and_container_compat server_2022 server_2025 ≡ false
unfolding check_host_and_container_compat supported_from get
server_2022-runs-not = refl

-- The version word plays no part.
abbrev other_word : OsVersion
other_word = record server_2022 { version = 0 }

each_other :
    (check_host_and_container_compat server_2022 other_word ≡ true)
    × (check_host_and_container_compat other_word server_2022 ≡ true)
unfolding check_host_and_container_compat supported_from get
each_other = (refl, refl)

abbrev os_release : Text
os_release = codes "NAME=\"Debian\"\nVERSION_ID=\"12\"\r\n\nPRETTY_NAME='Debian 12 '\n"

abbrev opened : Result OpenError Text
opened = ok os_release

abbrev missing : Result OpenError Text
missing = err not_exist

version_12 : get_value_from_os_release (codes "VERSION_ID") missing opened ≡ ok (codes "12")
unfolding get_value_from_os_release read_lines read_line scan_lines max_line split cut_prefix trim
    trim_left trim_right
version_12 = refl

get_value_from_os_release-last_example :
    get_value_from_os_release (codes "VERSION_ID") missing opened
    ≡ found (codes "VERSION_ID") (file_of missing opened)
get_value_from_os_release-last_example =
    get_value_from_os_release-last (codes "VERSION_ID") missing opened

abbrev cgroup : Text
cgroup = codes "0::/init.scope\n1:name=systemd:/\n"

cgroup-host : is_containerized (ok cgroup) ≡ ok false
unfolding is_containerized any_foreign is_foreign has_suffix cut_prefix split
cgroup-host = refl
