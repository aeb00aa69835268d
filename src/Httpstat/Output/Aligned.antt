-- ===== src/Httpstat/Output/Aligned.antt =====
-- cmd/httpstat/main.go: the bars of the table of times stand one below the other.
use mathlib.Core.Path.{subst}
use sockstats.Common.Int.{ℤ, pos}
use sockstats.Common.Text.{
  Text, codes, same_text, format_int, format_uint, digits_onto, format_uint-Passes, Passes,
}
use sockstats.Common.{
  ℕ, zero, suc, ◌+◌, ◌-◌, ◌*◌, ◌/◌, ◌%◌, ◌≤◌, ◌<◌, ◌≡◌, refl, sym, ap, ◌∙◌, Bool, true, false, not,
  ◌&&◌, ◌||◌, List, [], ◌∷◌, ◌++◌, ◌==◌, if◌then◌else◌, All, All-map, All-append, length,
  length-append, arith, Bool-cases, inl, inr, Option,
}
use sockstats.Httpstat.Output.{
  https_template, http_template, concat, fill, spaces, fmta, fmtb, columns, time_prints,
}
use sockstats.Httpstat.Times.{Times, http_columns, https_columns}

-- The columns of all the bars in a text of several lines, from a column on.
abbrev next_column : ℕ → ℕ → ℕ
next_column c n = if c == b'\n' then 0 else suc n

pub bars : ℕ → Text → List ℕ
bars n [] = []
bars n (c ∷ t) = let rest = bars (next_column c n) t in if c == b'|' then n ∷ rest else rest

abbrev is_hole : ℕ → ℕ → Bool
is_hole c d = (c == b'%') && (d == b's')

-- The bars of a template whose texts take nine columns each, and how many texts it takes.
template_bars : ℕ → Text → List ℕ
template_bars n [] = []
template_bars n (c ∷ []) = bars n (c ∷ [])
template_bars n (c ∷ d ∷ t) =
    let rest = template_bars (next_column c n) (d ∷ t) in
    let behind = template_bars (n + 9) t in
    if is_hole c d then behind else if c == b'|' then n ∷ rest else rest

holes : Text → ℕ
holes [] = 0
holes (c ∷ []) = 0
holes (c ∷ d ∷ t) =
    let rest = holes (d ∷ t) in let behind = holes t in if is_hole c d then suc behind else rest

-- Neither a bar nor a newline.
abbrev is_inner : ℕ → Bool
is_inner c = not (c == b'|') && not (c == b'\n')

abbrev IsNine : Text → Type 0
IsNine t = (length t ≡ 9) × Passes is_inner t

bars-append :
    (n : ℕ) (t rest : Text) → Passes is_inner t → bars n (t ++ rest) ≡ bars (n + length t) rest
unfolding bars
bars-append n [] rest h = ap (λ m. bars m rest) (omega arith)
bars-append n (c ∷ t) rest (h, hs) =
    ground (arith, bars-append (suc n) t rest hs, ap (λ m. bars m rest) (shift n (length t)))
  where
    shift : (n m : ℕ) → suc n + m ≡ n + suc m
    shift n m = omega arith

fill-bars :
    (n : ℕ) (t : Text) (args : List Text)
    → holes t ≡ length args
    → All IsNine args
    → bars n (fill t args) ≡ template_bars n t
unfolding fill bars template_bars holes
fill-bars n [] args h nine = refl
fill-bars n (c ∷ []) args h nine = refl
fill-bars n (c ∷ d ∷ t) [] h nine = elim (Bool-cases (is_hole c d)) [
  | inl hole ↦ absurd (ground arith)
  | inr other ↦ rw (other) (
      ap (λ r. if c == b'|' then n ∷ r else r)
        (fill-bars (next_column c n) (d ∷ t) [] (ground arith) tt))
]
fill-bars n (c ∷ d ∷ t) (a ∷ more) h ((nine, inner), nines) = elim (Bool-cases (is_hole c d)) [
  | inl hole ↦ rw (hole) (
      bars-append n a (fill t more) inner
      ∙ ap (λ m. bars (n + m) (fill t more)) nine
      ∙ fill-bars (n + 9) t more (ground arith) nines)
  | inr other ↦ rw (other) (
      ap (λ r. if c == b'|' then n ∷ r else r)
        (fill-bars (next_column c n) (d ∷ t) (a ∷ more) (ground arith) ((nine, inner), nines)))
]

-- A power of ten.
abbrev tens : ℕ → ℕ
tens zero = 1
tens (suc k) = tens k * 10

length-digits_onto :
    (f k n : ℕ) (out : Text) → 0 < k → n < tens k → length (digits_onto f n out) ≤ k + length out
unfolding digits_onto
length-digits_onto zero k n out p h = omega arith
length-digits_onto (suc f) zero n out p h = absurd (omega arith)
length-digits_onto (suc f) (suc zero) n out p h = ground arith
length-digits_onto (suc f) (suc (suc k)) n out p h =
    ground (arith, length-digits_onto f (suc k) (n / 10) ((b'0' + n % 10) ∷ out))

length-format_uint : (n : ℕ) → n < 10000000 → length (format_uint n) ≤ 7
unfolding format_uint
length-format_uint n h =
    omega (arith, length-digits_onto (suc n) 7 n [] (omega arith) (omega arith))

format_uint-inner : (n : ℕ) → Passes is_inner (format_uint n)
format_uint-inner n = All-map (λ c h. ground arith) (format_uint n) (format_uint-Passes n)

spaces-inner : (n : ℕ) → (length (spaces n) ≡ n) × Passes is_inner (spaces n)
spaces-inner zero = (refl, tt)
spaces-inner (suc n) = (ap suc (spaces-inner n).0, (refl, (spaces-inner n).1))

-- A time from 0 ms to less than ten million.
abbrev pub IsShort : ℤ → Type 0
IsShort d = (n : ℕ) × (d ≡ pos n) × (n < 10000000)

fmta-IsNine : (n : ℕ) → n < 10000000 → IsNine (fmta (pos n))
unfolding fmta format_int
fmta-IsNine n h =
    let t = format_uint n in
    let (wide, blank) = spaces-inner (7 - length t) in
    (
      omega (
        arith,
        length-append (spaces (7 - length t) ++ t) (codes "ms"),
        length-append (spaces (7 - length t)) t,
        wide,
        length-format_uint n h,
      ),
      All-append _ (spaces (7 - length t) ++ t) _
          (All-append _ (spaces (7 - length t)) t blank (format_uint-inner n)) (refl, (refl, tt)),
    )

fmtb-IsNine : (n : ℕ) → n < 10000000 → IsNine (fmtb (pos n))
unfolding fmtb format_int
fmtb-IsNine n h =
    let t = format_uint n ++ codes "ms" in
    let (wide, blank) = spaces-inner (9 - length t) in
    (
      omega (
        arith,
        length-append t (spaces (9 - length t)),
        length-append (format_uint n) (codes "ms"),
        wide,
        length-format_uint n h,
      ),
      All-append _ t _ (All-append _ (format_uint n) _ (format_uint-inner n) (refl, (refl, tt)))
          blank,
    )

columns-IsNine : (k : ℕ) (ds : List ℤ) → All IsShort ds → All IsNine (columns k ds)
columns-IsNine k [] h = tt
columns-IsNine zero (d ∷ ds) ((n, e, h), hs) =
    (subst (λ d. IsNine (fmtb d)) (sym e) (fmtb-IsNine n h), columns-IsNine zero ds hs)
columns-IsNine (suc k) (d ∷ ds) ((n, e, h), hs) =
    (subst (λ d. IsNine (fmta d)) (sym e) (fmta-IsNine n h), columns-IsNine k ds hs)

-- The columns of the bars of the line under the times, for https and for http.
abbrev pub https_bars : List ℕ
https_bars = 12 ∷ 29 ∷ 45 ∷ 65 ∷ 84 ∷ []

abbrev pub http_bars : List ℕ
http_bars = 13 ∷ 30 ∷ 50 ∷ 69 ∷ []

abbrev pub is_among : ℕ → List ℕ → Bool
is_among n [] = false
is_among n (m ∷ ms) = (n == m) || is_among n ms

abbrev pub all_among : List ℕ → List ℕ → Bool
all_among [] ms = true
all_among (n ∷ ns) ms = is_among n ms && all_among ns ms

https-aligned :
    (t : Times) (t7 : Option ℤ)
    → All IsShort (https_columns t t7)
    → bars 0 (fill (concat https_template) (columns 5 (https_columns t t7)))
      ≡ template_bars 0 (concat https_template)
unfolding https_columns holes
https-aligned t t7 h =
    fill-bars 0 (concat https_template) (columns 5 (https_columns t t7)) refl
      (columns-IsNine 5 (https_columns t t7) h)

http-aligned :
    (t : Times) (t7 : Option ℤ)
    → All IsShort (http_columns t t7)
    → bars 0 (fill (concat http_template) (columns 4 (http_columns t t7)))
      ≡ template_bars 0 (concat http_template)
unfolding http_columns holes
http-aligned t t7 h =
    fill-bars 0 (concat http_template) (columns 4 (http_columns t t7)) refl
      (columns-IsNine 4 (http_columns t t7) h)

-- The table of times is one print, with 19 bars for https and 13 for http, all of which stand in the
-- columns of those of the line under the times, whatever the times are, as long as each of those that it shows is at least 0 ms
-- and below 10,000,000 ms.
pub time_prints-aligned :
    (t : Times) (t7 : Option ℤ)
    → All IsShort (https_columns t t7)
    → All IsShort (http_columns t t7)
    → ((text : Text) × (time_prints (codes "https") t t7 ≡ text ∷ [])
        × (all_among (bars 0 text) https_bars ≡ true)
        × (length (bars 0 text) ≡ 19))
      × ((text : Text) × (time_prints (codes "http") t t7 ≡ text ∷ [])
          × (all_among (bars 0 text) http_bars ≡ true)
          × (length (bars 0 text) ≡ 13))
unfolding time_prints template_bars same_text bars
time_prints-aligned t t7 h k = (
  (
    _,
    refl,
    ap (λ ns. all_among ns https_bars) (https-aligned t t7 h),
    ap length (https-aligned t t7 h),
  ),
  (
    _,
    refl,
    ap (λ ns. all_among ns http_bars) (http-aligned t t7 k),
    ap length (http-aligned t t7 k),
  ),
)
