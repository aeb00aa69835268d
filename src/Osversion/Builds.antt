-- ===== src/Osversion/Builds.antt =====
-- pkg/osversion/windowsbuilds.go: the build numbers of the releases, and which of the releases run the
-- containers of which.
use sockstats.Common.{ℕ, ◌≡◌, refl, Bool, true, false, not, ◌&&◌, ◌||◌, List, [], ◌∷◌, ◌==◌, leb}
use sockstats.Osversion.{
  OsVersion, ltsc_2022, ltsc_2025, supported_from, check_host_and_container_compat,
}

abbrev pub rs1 : ℕ
rs1 = 14393

abbrev pub v1607 : ℕ
v1607 = rs1

abbrev pub ltsc_2016 : ℕ
ltsc_2016 = rs1

abbrev pub rs2 : ℕ
rs2 = 15063

abbrev pub v1703 : ℕ
v1703 = rs2

abbrev pub rs3 : ℕ
rs3 = 16299

abbrev pub v1709 : ℕ
v1709 = rs3

abbrev pub rs4 : ℕ
rs4 = 17134

abbrev pub v1803 : ℕ
v1803 = rs4

abbrev pub rs5 : ℕ
rs5 = 17763

abbrev pub v1809 : ℕ
v1809 = rs5

abbrev pub ltsc_2019 : ℕ
ltsc_2019 = rs5

abbrev pub v19h1 : ℕ
v19h1 = 18362

abbrev pub v1903 : ℕ
v1903 = v19h1

abbrev pub v19h2 : ℕ
v19h2 = 18363

abbrev pub v1909 : ℕ
v1909 = v19h2

abbrev pub v20h1 : ℕ
v20h1 = 19041

abbrev pub v2004 : ℕ
v2004 = v20h1

abbrev pub v20h2 : ℕ
v20h2 = 19042

abbrev pub v21h1 : ℕ
v21h1 = 19043

abbrev pub v21h2_win10 : ℕ
v21h2_win10 = 19044

abbrev pub v21h2_server : ℕ
v21h2_server = 20348

abbrev pub v21h2_win11 : ℕ
v21h2_win11 = 22000

abbrev pub v22h2_win10 : ℕ
v22h2_win10 = 19045

abbrev pub v22h2_win11 : ℕ
v22h2_win11 = 22621

abbrev pub v23h2 : ℕ
v23h2 = 25398

abbrev pub v25h1_server : ℕ
v25h1_server = 26100

-- The builds that have a number of their own, in the order of the file.
abbrev pub releases : List ℕ
releases =
    rs1 ∷ rs2 ∷ rs3 ∷ rs4 ∷ rs5 ∷ v19h1 ∷ v19h2 ∷ v20h1 ∷ v20h2 ∷ v21h1 ∷ v21h2_win10 ∷ v21h2_server
    ∷ v21h2_win11 ∷ v22h2_win10 ∷ v22h2_win11 ∷ v23h2 ∷ v25h1_server ∷ []

abbrev all_of : (ℕ → Bool) → List ℕ → Bool
all_of p [] = true
all_of p (n ∷ ns) = p n && all_of p ns

abbrev of_build : ℕ → OsVersion
of_build b = record { version = 0; major_version = 10; minor_version = 0; build = b }

abbrev same : Bool → Bool → Bool
same true b = b
same false b = not b

-- Among these releases, a host runs the containers of its own build, and from Windows Server 2022
-- on those of each release from that one up to its own.
releases-runs :
    all_of
      (λ host.
        all_of
          (λ ctr.
            same
              (check_host_and_container_compat (of_build host) (of_build ctr))
              ((host == ctr) || (leb ltsc_2022 ctr && leb ctr host)))
          releases)
      releases
    ≡ true
unfolding check_host_and_container_compat supported_from
releases-runs = refl

-- The two names of Windows Server 2022, and those of Windows Server 2025, agree.
aliases : (v21h2_server == ltsc_2022) && (v25h1_server == ltsc_2025) ≡ true
aliases = refl
