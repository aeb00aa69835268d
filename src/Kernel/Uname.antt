-- ===== src/Kernel/Uname.antt =====
-- pkg/kernel/uname_unix.go and uname_unsupported.go: `uname`. What uname(2) gives is
-- an argument: an error, or the release, its bytes up to the first NUL.
use sockstats.Common.Text.{Text, codes}
use sockstats.Common.{Result, ok, err}

-- Where the system has uname(2).
unfoldable pub uname : Result Text Text → Result Text Text
uname (err e) = err e
uname (ok release) = ok release

-- Where it has not.
abbrev pub no_detection : Text
no_detection = codes "kernel version detection is not available on this platform"

unfoldable pub uname_unsupported : Result Text Text
uname_unsupported = err no_detection
