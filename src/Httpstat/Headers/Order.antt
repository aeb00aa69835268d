-- ===== src/Httpstat/Headers/Order.antt =====
-- cmd/httpstat/main.go: `Less` as an order by rank.
use sockstats.Common.Text.{
  Text, same_text, less_text, same_text_refl, eq_of_same_text, less_text_total, less_text_trans,
  less_text_irrefl, less_text_asym,
}
use sockstats.Common.{
  ℕ, ◌≡◌, sym, ap, ◌∙◌, Bool, true, false, not, ◌&&◌, ◌||◌, ltb, ◌==◌, if◌then◌else◌, arith,
  Bool-cases, inl, inr,
}
use sockstats.Httpstat.Headers.{server, end_to_end, less}

-- The header "Server", then those for the whole way, then those of one hop.
unfoldable pub rank : Text → ℕ
rank a = if same_text a server then 0 else if end_to_end a then 1 else 2

-- Names by their rank, and those of one rank in the order of texts; a name goes before itself.
unfoldable pub goes_before : Text → Text → Bool
goes_before a b = ltb (rank a) (rank b) || (rank a == rank b && not (less_text b a))

pub goes_before_refl : (a : Text) → goes_before a a ≡ true
unfolding goes_before
goes_before_refl a = ground (arith, less_text_irrefl a)

pub goes_before_total : (a b : Text) → goes_before a b ≡ false → goes_before b a ≡ true
unfolding goes_before
goes_before_total a b h = ground (arith, less_text_asym a b, less_text_asym b a)

leq_trans : (a b c : Text) → less_text b a ≡ false → less_text c b ≡ false → less_text c a ≡ false
leq_trans a b c h k = elim (Bool-cases (less_text c a)) [
  | inr e ↦ e
  | inl e ↦ elim (Bool-cases (same_text a b)) [
    | inl same ↦ ap (less_text c) (eq_of_same_text a b same) ∙ k
    | inr differ ↦
        let ab : less_text a b ≡ true = less_text_total a b differ ∙ ap not h in
        let cb = less_text_trans c a b e ab in absurd (ground arith)
  ]
]

pub goes_before_trans :
    (a b c : Text) → goes_before a b ≡ true → goes_before b c ≡ true → goes_before a c ≡ true
unfolding goes_before
goes_before_trans a b c h k = ground (arith, leq_trans a b c)

pub goes_before_antisym : (a b : Text) → goes_before a b ≡ true → goes_before b a ≡ true → a ≡ b
unfolding goes_before
goes_before_antisym a b h k = elim (Bool-cases (same_text a b)) [
  | inl same ↦ eq_of_same_text a b same
  | inr differ ↦ let total = less_text_total a b differ in absurd (ground arith)
]

-- Two names that differ are in the order of `Less`.
pub less-goes_before : (a b : Text) → same_text a b ≡ false → less a b ≡ goes_before a b
unfolding less goes_before rank
less-goes_before a b h = elim (Bool-cases (same_text a server)) [
  | inl top ↦ elim (Bool-cases (same_text b server)) [
    | inl both ↦
        let same = eq_of_same_text a server top ∙ sym (eq_of_same_text b server both) in
        let e = ap (same_text a) (sym same) ∙ same_text_refl a in absurd (ground arith)
    | inr other ↦ rw (top, other) (ground arith)
  ]
  | inr other ↦ elim (Bool-cases (same_text b server)) [
    | inl top ↦ rw (other, top) (ground arith)
    | inr neither ↦ rw (other, neither) (ground (arith, less_text_total a b h))
  ]
]
