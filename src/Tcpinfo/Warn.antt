-- ===== src/Tcpinfo/Warn.antt =====
-- The statements of the `Warnings` methods.
use sockstats.Common.Text.{Text, format_uint}
use sockstats.Common.{ℕ, Bool, List, [], ◌∷◌, ◌++◌, if◌then◌else◌}

-- One statement `if test { warns = append(warns, name + FormatUint(n, 10)) }`.
abbrev pub warn_if : Bool → Text → ℕ → List Text → List Text
warn_if test name n warns = if test then warns ++ (name ++ format_uint n) ∷ [] else warns
