-- ===== src/Tcpinfo/Duration.antt =====
-- Durations: int64 counts of nanoseconds.
use sockstats.Common.Int.{ℤ, pos, ◌*ℤ◌, eq_of_parts}
use sockstats.Common.Word.{wrap_64, wrap_64_id, two_63}
use sockstats.Common.{ℕ, ◌*◌, ◌<◌, ◌≡◌, ap, ◌∙◌, arith}

abbrev pub millisecond : ℕ
millisecond = 1000000

abbrev pub microsecond : ℕ
microsecond = 1000

-- `time.Duration(n) * unit`: both the conversion and the product are kept to an int64.
unfoldable pub duration : ℕ → ℕ → ℤ
duration unit n = wrap_64 (wrap_64 (pos n) *ℤ pos unit)

-- A product below 2 ^ 63 is kept as it is.
pub duration-exact :
    (unit n : ℕ) → n < two_63 → n * unit < two_63 → duration unit n ≡ pos (n * unit)
unfolding duration ◌*ℤ◌
duration-exact unit n small h =
    ap (λ a. wrap_64 (a *ℤ pos unit)) (wrap_64_id (pos n) (ground arith))
    ∙ ap wrap_64 (eq_of_parts (pos n *ℤ pos unit) (pos (n * unit)) (ground arith))
    ∙ wrap_64_id (pos (n * unit)) (ground arith)
