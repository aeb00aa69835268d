-- ===== src/OperatingSystem/Unix.antt =====
-- pkg/os/operatingsystem_unix.go: Darwin and FreeBSD. What uname(2) gives is an argument: an error, or
-- the field `Machine` as `unix.ByteSliceToString` reads it.
use sockstats.Common.Text.{Text, codes}
use sockstats.Common.{Bool, false, Option, some, Result, ok, err}

unfoldable pub get_operating_system : Result Text Text → Result Text Text
get_operating_system (err e) = err e
get_operating_system (ok machine) = ok machine

unfoldable pub get_operating_system_version : Result Text Text
get_operating_system_version = err (codes "Unsupported on generic unix")

-- Both parts of the result.
unfoldable pub is_containerized : Bool × Option Text
is_containerized = (false, some (codes "Cannot detect if we are in container"))
