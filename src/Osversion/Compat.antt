-- ===== src/Osversion/Compat.antt =====
-- pkg/osversion/platform_compat_windows.go: `CheckHostAndContainerCompat` and the rule that its
-- comments give.
use sockstats.Common.{ℕ, ◌≤◌, ◌<◌, ◌≡◌, ◌↔◌, ◌⊎◌, true, All, arith}
use sockstats.Osversion.{
  OsVersion, ltsc_2022, compat_ltsc_releases, supported_from, check_host_and_container_compat,
}

-- No stable release that is older than the host is newer than the image.
abbrev pub NoOlder : ℕ → ℕ → Type 0
NoOlder host ctr = All (λ r. r < host → r ≤ ctr) compat_ltsc_releases

-- Host and container agree in their major and minor versions; a host before Windows Server 2022
-- runs its own build; a later one runs the builds up to its own from the latest stable release
-- before it on, or from Windows Server 2022 on if it is that release.
abbrev pub Runs : OsVersion → OsVersion → Type 0
Runs host ctr =
    (host.major_version ≡ ctr.major_version)
    × (host.minor_version ≡ ctr.minor_version)
    × ((host.build < ltsc_2022) × (host.build ≡ ctr.build)
        ⊎ (ltsc_2022 ≤ host.build)
          × (ctr.build ≤ host.build)
          × (ltsc_2022 ≤ ctr.build)
          × NoOlder host.build ctr.build)

-- `CheckHostAndContainerCompat` is true exactly if the host runs the container.
check_host_and_container_compat-Runs :
    (host ctr : OsVersion) → (check_host_and_container_compat host ctr ≡ true) ↔ Runs host ctr
unfolding check_host_and_container_compat supported_from
check_host_and_container_compat-Runs host ctr = ground arith

-- Two versions that can each run the containers of the other have the same major and minor
-- versions and the same build.
pub check_host_and_container_compat_antisym :
    (a b : OsVersion)
    → check_host_and_container_compat a b ≡ true
    → check_host_and_container_compat b a ≡ true
    → (a.major_version ≡ b.major_version)
      × (a.minor_version ≡ b.minor_version)
      × (a.build ≡ b.build)
unfolding check_host_and_container_compat
check_host_and_container_compat_antisym a b h k = ground arith

-- Each host runs the containers of its own version, whatever its build.
pub check_host_and_container_compat_refl :
    (v : OsVersion) → check_host_and_container_compat v v ≡ true
unfolding check_host_and_container_compat supported_from
check_host_and_container_compat_refl v = ground arith
