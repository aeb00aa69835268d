-- ===== src/Tcpinfo/Names.antt =====
-- The maps of pkg/tcpinfo from small numbers to names.
use Prim.Native.String.{String}
use sockstats.Common.{ℕ, List, [], ◌∷◌, ◌==◌, if◌then◌else◌}

-- A map from small numbers to names.
abbrev pub Names : Type 0
Names = List (ℕ × String)

-- Go's `m[k]`: the empty name where the key is missing.
unfoldable pub name_of : ℕ → Names → String
name_of k [] = ""
name_of k ((j, n) ∷ m) = if j == k then n else name_of k m
