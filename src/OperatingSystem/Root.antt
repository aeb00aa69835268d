-- ===== src/OperatingSystem/Root.antt =====
-- When `IsContainerized` finds no container.
use mathlib.Core.List.{reverse, reverse-append, reverse-reverse}
use sockstats.Common.Text.{Text, codes}
use sockstats.Common.{
  ◌≡◌, ◌↔◌, ◌⊎◌, inl, inr, refl, sym, ap, ◌∙◌, true, false, Option, none, some, List, [], ◌∷◌, ◌++◌,
  arith, ok, All,
}
use sockstats.OperatingSystem.Cgroup.{is_empty, is_foreign, any_foreign, is_containerized}
use sockstats.Common.Text.{parts, cut_prefix, has_suffix, is_some}

cut_prefix-some : (s p : Text) {r : Text} → cut_prefix s p ≡ some r → s ≡ p ++ r
unfolding cut_prefix
cut_prefix-some s [] h = ground arith
cut_prefix-some [] (p ∷ ps) h = ground arith
cut_prefix-some (c ∷ s) (p ∷ ps) {r} h = ground (arith, cut_prefix-some s ps {r = r})

cut_prefix-append : (p r : Text) → cut_prefix (p ++ r) p ≡ some r
unfolding cut_prefix
cut_prefix-append [] r = refl
cut_prefix-append (c ∷ p) r = ground (arith, cut_prefix-append p r)

-- The text ends in the suffix.
abbrev EndsIn : Text → Text → Type 0
EndsIn s suffix = (front : Text) × (s ≡ front ++ suffix)

has_suffix-EndsIn : (s suffix : Text) → has_suffix s suffix ≡ true → EndsIn s suffix
unfolding has_suffix
has_suffix-EndsIn s suffix h = go (cut_prefix (reverse s) (reverse suffix)) refl
  where
    go : (o : Option Text) → cut_prefix (reverse s) (reverse suffix) ≡ o → EndsIn s suffix
    go none e = ground (arith, e, h)
    go (some r) e = (
      reverse r,
      sym (reverse-reverse s)
          ∙ ap reverse (cut_prefix-some (reverse s) (reverse suffix) e)
          ∙ reverse-append (reverse suffix) r
          ∙ ap (λ t. reverse r ++ t) (reverse-reverse suffix),
    )

has_suffix-append : (front suffix : Text) → has_suffix (front ++ suffix) suffix ≡ true
unfolding has_suffix
has_suffix-append front suffix = ap is_some (
    ap (λ t. cut_prefix t (reverse suffix)) (reverse-append front suffix)
    ∙ cut_prefix-append (reverse suffix) (reverse front))

-- A line of the root's control group, or an empty one.
abbrev pub IsRoot : Text → Type 0
IsRoot line = (line ≡ []) ⊎ EndsIn line (codes ":/") ⊎ EndsIn line (codes ":/init.scope")

is_foreign_cases :
    (line : Text)
    → is_foreign line ≡ false
    → (is_empty line ≡ true)
      ⊎ (has_suffix line (codes ":/") ≡ true)
      ⊎ (has_suffix line (codes ":/init.scope") ≡ true)
unfolding is_foreign
is_foreign_cases line h = ground arith

empty-nil : (line : Text) → is_empty line ≡ true → line ≡ []
empty-nil [] h = refl
empty-nil (c ∷ line) h = ground arith

is_foreign-IsRoot : (line : Text) → is_foreign line ≡ false → IsRoot line
unfolding is_foreign
is_foreign-IsRoot line h = elim (is_foreign_cases line h) [
  | inl e ↦ inl (empty-nil line e)
  | inr (inl e) ↦ inr (inl (has_suffix-EndsIn line (codes ":/") e))
  | inr (inr e) ↦ inr (inr (has_suffix-EndsIn line (codes ":/init.scope") e))
]

EndsIn-has_suffix : (s suffix : Text) → EndsIn s suffix → has_suffix s suffix ≡ true
EndsIn-has_suffix s suffix (front, e) =
    ap (λ t. has_suffix t suffix) e ∙ has_suffix-append front suffix

IsRoot-is_foreign : (line : Text) → IsRoot line → is_foreign line ≡ false
unfolding is_foreign
IsRoot-is_foreign line (inl e) = ap is_foreign e
IsRoot-is_foreign line (inr (inl e)) =
    let ends = EndsIn-has_suffix line (codes ":/") e in ground (arith, ends)
IsRoot-is_foreign line (inr (inr e)) =
    let ends = EndsIn-has_suffix line (codes ":/init.scope") e in ground (arith, ends)

any_foreign-All : (lines : List Text) → any_foreign lines ≡ false → All IsRoot lines
unfolding any_foreign
any_foreign-All [] h = tt
any_foreign-All (line ∷ lines) h =
    (is_foreign-IsRoot line (ground arith), any_foreign-All lines (ground arith))

All-any_foreign : (lines : List Text) → All IsRoot lines → any_foreign lines ≡ false
unfolding any_foreign
All-any_foreign [] h = refl
All-any_foreign (line ∷ lines) (h, hs) = rw (IsRoot-is_foreign line h) (All-any_foreign lines hs)

-- `IsContainerized` says that there is no container exactly if each line of the file is empty or
-- ends in ":/" or in ":/init.scope".
is_containerized-IsRoot :
    (file : Text) → (is_containerized (ok file) ≡ ok false) ↔ All IsRoot (parts b'\n' file)
unfolding is_containerized
is_containerized-IsRoot file =
    (λ h. any_foreign-All (parts b'\n' file) cc, λ h. ap ok (All-any_foreign (parts b'\n' file) h))
