-- ===== src/OperatingSystem/Cgroup.antt =====
-- pkg/os/operatingsystem_linux.go: `IsContainerized`.
use sockstats.Common.Text.{Text, codes}
use sockstats.Common.{Bool, true, false, not, ◌&&◌, List, [], ◌∷◌, if◌then◌else◌, Result, ok, err}
use sockstats.Common.Text.{parts, split, has_suffix}

abbrev pub is_empty : Text → Bool
is_empty [] = true
is_empty (_ ∷ _) = false

-- The test in the loop: a control group that is not one of the root's.
unfoldable pub is_foreign : Text → Bool
unfolding has_suffix
is_foreign line =
    not (is_empty line)
    && not (has_suffix line (codes ":/"))
    && not (has_suffix line (codes ":/init.scope"))

unfoldable pub any_foreign : List Text → Bool
any_foreign [] = false
any_foreign (line ∷ lines) = let rest = any_foreign lines in if is_foreign line then true else rest

-- `IsContainerized`, from what reading /proc/1/cgroup gives.
unfoldable pub is_containerized : Result Text Text → Result Text Bool
unfolding any_foreign split
is_containerized (err e) = err e
is_containerized (ok file) = ok (any_foreign (parts b'\n' file))
