-- ===== src/Tcpinfo/Options.antt =====
-- The loop `for _, flag := range tcpOptions` of the `Unpack` methods: it lists the negotiated
-- options of the kernel's options byte by name. The systems differ in the table and in the values
-- of the window scale.
use Prim.Native.Nat.{bit_and}
use mathlib.Core.List.{append_assoc, append-nil}
use sockstats.Common.{
  ℕ, ◌≡◌, refl, sym, ◌∙◌, ap, Bool, true, false, ◌||◌, List, [], ◌∷◌, ◌++◌, ◌==◌, if◌then◌else◌,
  Bool-cases, inl, inr,
}
use sockstats.Tcpinfo.Names.{Names, name_of}
use sockstats.Tcpinfo.TcpOption.{TcpOption}

-- The options of one system: `tcpOptionsMap`, the flags of the first `case` of the `switch`, and
-- the window scale's, which is the second.
pub record OptionTable : Type 0 where
  pub names : Names
  pub is_plain : ℕ → Bool
  pub scale : ℕ

-- The options appended so far, sent and received.
abbrev pub Both : Type 0
Both = List TcpOption × List TcpOption

abbrev pub option : OptionTable → ℕ → ℕ → TcpOption
option t f n = record { kind = name_of f t.names; value = n }

-- The body of the loop, for an options byte and the values of the sent and the received scale.
unfoldable pub add_option : OptionTable → ℕ → ℕ → ℕ → ℕ → Both → Both
add_option t byte sent received f (tx, rx) =
    if bit_and byte f == 0
    then (tx, rx)
    else if t.is_plain f
    then (tx ++ option t f 0 ∷ [], rx ++ option t f 0 ∷ [])
    else if f == t.scale
    then (tx ++ option t f sent ∷ [], rx ++ option t f received ∷ [])
    else (tx, rx)

unfoldable pub add_options : OptionTable → ℕ → ℕ → ℕ → List ℕ → Both → Both
add_options t byte sent received [] both = both
add_options t byte sent received (f ∷ fs) both =
    add_options t byte sent received fs (add_option t byte sent received f both)

-- The options of the flags of a list whose bits are set in a byte: the value of each is 0, but
-- for the window scale's.
abbrev pub set_options : OptionTable → ℕ → ℕ → List ℕ → List TcpOption
set_options t n scale [] = []
set_options t n scale (f ∷ fs) =
    let rest = set_options t n scale fs in
    if bit_and n f == 0 then rest else option t f (if f == t.scale then scale else 0) ∷ rest

-- Every flag of the list has just one case in the `switch`.
abbrev pub Known : OptionTable → List ℕ → Type 0
Known t [] = Unit
Known t (f ∷ fs) =
    ((t.is_plain f || f == t.scale) ≡ true)
    × (t.is_plain f ≡ true → (f == t.scale) ≡ false)
    × Known t fs

module _ (t : OptionTable) (n sent received : ℕ) where
  -- One round appends an option to both lists, or nothing.
  add_option-eq :
      (f : ℕ) (both : Both)
      → (t.is_plain f || f == t.scale) ≡ true
      → (t.is_plain f ≡ true → (f == t.scale) ≡ false)
      → ((add_option t n sent received f both).0 ≡ both.0 ++ set_options t n sent (f ∷ []))
        × ((add_option t n sent received f both).1 ≡ both.1 ++ set_options t n received (f ∷ []))
  add_option-eq f (tx, rx) k only = elim (Bool-cases (bit_and n f == 0)) [
    | inl unset ↦ unfold add_option in rw unset (rw append-nil, rw append-nil)
    | inr is_set ↦ elim (Bool-cases (t.is_plain f)) [
      | inl plain ↦ unfold add_option in rw is_set (rw (plain, only plain) (refl, refl))
      | inr other ↦
          let scale : (f == t.scale) ≡ true = rw other at k in
          unfold add_option in rw is_set (rw other (rw scale (refl, refl)))
    ]
  ]

  set_options-cons :
      (w f : ℕ) (fs : List ℕ)
      → set_options t n w (f ∷ fs) ≡ set_options t n w (f ∷ []) ++ set_options t n w fs
  set_options-cons w f fs = elim (Bool-cases (bit_and n f == 0)) [
    | inl unset ↦ rw unset
    | inr is_set ↦ rw is_set
  ]

  regroup :
      (w f : ℕ) (fs : List ℕ) (os : List TcpOption)
      → (os ++ set_options t n w (f ∷ [])) ++ set_options t n w fs
        ≡ os ++ set_options t n w (f ∷ fs)
  regroup w f fs os =
      append_assoc os (set_options t n w (f ∷ [])) (set_options t n w fs)
      ∙ ap (λ x. os ++ x) (sym (set_options-cons w f fs))

  pub add_options-eq :
      (fs : List ℕ) (both : Both)
      → Known t fs
      → ((add_options t n sent received fs both).0 ≡ both.0 ++ set_options t n sent fs)
        × ((add_options t n sent received fs both).1 ≡ both.1 ++ set_options t n received fs)
  unfolding add_options
  add_options-eq [] both h = (rw append-nil, rw append-nil)
  add_options-eq (f ∷ fs) both (k, only, ks) =
      let (one_tx, one_rx) = add_option-eq f both k only in
      let (tx, rx) = add_options-eq fs (add_option t n sent received f both) ks in
      (tx ∙ rw one_tx (regroup sent f fs both.0), rx ∙ rw one_rx (regroup received f fs both.1))
