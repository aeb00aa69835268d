-- ===== src/Tcpinfo/Windows/States.antt =====
-- pkg/tcpinfo/tcpinfo_windows.go: `tcpInfoTCPStateString`, which `Unpack` does not call.
use Prim.Native.String.{String}
use sockstats.Common.Text.{Text, codes, format_uint}
use sockstats.Common.{
  ℕ, ◌≡◌, refl, ap, sym, ◌∙◌, ◌⊎◌, inl, inr, Option, none, some, [], ◌∷◌, ◌++◌, ◌==◌, if◌then◌else◌,
  Bool-cases,
}
use sockstats.Tcpinfo.Names.{Names, name_of}
use sockstats.Tcpinfo.Windows.Raw.{RawInfoV0, RawInfoV1}
use sockstats.Tcpinfo.Windows.Unpack.{tcp_state_map, unpack_v0, unpack_v1}

-- `s, ok := m[k]`
abbrev pub find_name : ℕ → Names → Option String
find_name k [] = none
find_name k ((j, n) ∷ m) = let rest = find_name k m in if j == k then some n else rest

abbrev pub name_or_number : Option String → ℕ → Text
name_or_number (some s) state = codes s
name_or_number none state = codes "UNKNOWN(" ++ (format_uint state ++ codes ")")

unfoldable pub tcp_info_tcp_state_string : ℕ → Text
tcp_info_tcp_state_string state = name_or_number (find_name state tcp_state_map) state

name_of-find_name :
    (k : ℕ) (m : Names)
    → ((s : String) × (find_name k m ≡ some s) × (name_of k m ≡ s))
      ⊎ ((find_name k m ≡ none) × (name_of k m ≡ ""))
unfolding name_of
name_of-find_name k [] = inr (refl, refl)
name_of-find_name k ((j, n) ∷ m) = elim (Bool-cases (j == k)) [
  | inl same ↦ rw (same, name_of) (inl (n, refl, refl))
  | inr other ↦ rw (other, name_of) (name_of-find_name k m)
]

-- The name of the state that `Unpack` stores is what `tcpInfoTCPStateString` gives, but for a state
-- without a name, where it is empty and the function gives the number.
state_name-unpack :
    (v0 : RawInfoV0) (v1 : RawInfoV1)
    → v0.state ≡ v1.state
    → ((unpack_v0 v0).state_name ≡ (unpack_v1 v1).state_name)
      × ((codes (unpack_v1 v1).state_name ≡ tcp_info_tcp_state_string v1.state)
          ⊎ (((unpack_v1 v1).state_name ≡ "")
              × (tcp_info_tcp_state_string v1.state
                  ≡ codes "UNKNOWN(" ++ (format_uint v1.state ++ codes ")"))))
unfolding unpack_v0 unpack_v1 tcp_info_tcp_state_string
state_name-unpack v0 v1 h = (
  ap (λ n. name_of n tcp_state_map) h,
  elim (name_of-find_name v1.state tcp_state_map) [
    | inl (s, found, name) ↦ inl (ap codes name ∙ sym (ap (λ o. name_or_number o v1.state) found))
    | inr (missing, name) ↦ inr (name, ap (λ o. name_or_number o v1.state) missing)
  ],
)
