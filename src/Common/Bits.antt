-- ===== src/Common/Bits.antt =====
-- Masks and joined bit fields as arithmetic, by the law for the lowest binary digit.
use Prim.Native.Nat.{
  ℕ, zero, suc, ◌+◌, ◌*◌, ◌/◌, ◌%◌, ◌≤◌, ◌<◌, min, max, digits, bitwise, bit_and, bit_or,
  bit_and-bitwise, bit_or-bitwise,
}
use mathlib.Core.Path.{◌≡◌, refl, subst, ap, ◌∙◌}
use mathlib.Core.Logic.{◌⊎◌, inl, inr}
use sockstats.Common.Tests.{leb, Bool-cases}
use native.Mathlib.Nat.{le_refl}
use native.Mathlib.Omega.{arith}

last_or_before : (k x : ℕ) → x ≤ suc k → (x ≤ k) ⊎ (suc k ≡ x)
last_or_before k x h = elim (Bool-cases (leb x k)) [
  | inl below ↦ inl (ground arith)
  | inr above ↦ inr (ground arith)
]

-- An operation on digits, and what it makes of the second number when the first has run out.
module _ (over : ℕ → ℕ) (op : ℕ → ℕ → ℕ) where
  abbrev joined : ℕ → ℕ → ℕ → ℕ
  joined x y h = h * 2 + op (x % 2) (y % 2)

  one-more : (left x y : ℕ) → x ≤ left → digits over op (suc left) x y ≡ digits over op left x y
  one-more zero zero y h = refl
  one-more zero (suc x) y h = absurd (omega arith)
  one-more (suc left) zero y h = refl
  one-more (suc left) (suc x) y h =
      ap (joined (suc x) y) (one-more left (suc x / 2) (y / 2) (omega arith))

  digits-settled : (left x y : ℕ) → x ≤ left → digits over op left x y ≡ bitwise over op x y
  digits-settled zero zero y h = refl
  digits-settled zero (suc x) y h = absurd (omega arith)
  digits-settled (suc left) x y h = elim (last_or_before left x h) [
    | inl before ↦ one-more left x y before ∙ digits-settled left x y before
    | inr last ↦ ap (λ k. digits over op k x y) last
  ]

  bitwise-joined :
      (x y : ℕ) → bitwise over op (suc x) y ≡ joined (suc x) y (bitwise over op (suc x / 2) (y / 2))
  bitwise-joined x y = ap (joined (suc x) y) (digits-settled x (suc x / 2) (y / 2) (omega arith))

bit_and-lowest : (x y : ℕ) → bit_and x y ≡ joined (λ _. 0) min x y (bit_and (x / 2) (y / 2))
bit_and-lowest zero y = omega (arith, bit_and-bitwise 0 y, bit_and-bitwise 0 (y / 2))
bit_and-lowest (suc x) y = omega (
  arith,
  bit_and-bitwise (suc x) y,
  bitwise-joined (λ _. 0) min x y,
  bit_and-bitwise (suc x / 2) (y / 2),
)

bit_or-lowest : (x y : ℕ) → bit_or x y ≡ joined (λ z. z) max x y (bit_or (x / 2) (y / 2))
bit_or-lowest zero y = omega (arith, bit_or-bitwise 0 y, bit_or-bitwise 0 (y / 2))
bit_or-lowest (suc x) y = omega (
  arith,
  bit_or-bitwise (suc x) y,
  bitwise-joined (λ z. z) max x y,
  bit_or-bitwise (suc x / 2) (y / 2),
)

-- A number shifted `k` places to the left, the power of two, and the mask of `k` ones.
abbrev pub shl : ℕ → ℕ → ℕ
shl zero m = m
shl (suc k) m = shl k m * 2

abbrev pub power : ℕ → ℕ
power k = shl k 1

abbrev ones : ℕ → ℕ
ones zero = 0
ones (suc k) = ones k * 2 + 1

-- The bits of a number from place `k` on, and those in front of it.
abbrev high : ℕ → ℕ → ℕ
high zero a = a
high (suc k) a = high k (a / 2)

abbrev low : ℕ → ℕ → ℕ
low zero a = 0
low (suc k) a = low k (a / 2) * 2 + a % 2

bit_and-nil : (left x : ℕ) → x ≤ left → bit_and x 0 ≡ 0
bit_and-nil zero x h = ap (λ x. bit_and x 0) {y = 0} (omega arith)
bit_and-nil (suc left) x h =
    omega (arith, bit_and-lowest x 0, bit_and-nil left (x / 2) (omega arith))

bit_and-ones : (k a : ℕ) → bit_and a (ones k) ≡ low k a
bit_and-ones zero a = bit_and-nil a a (le_refl _)
bit_and-ones (suc k) a = ground (arith, bit_and-lowest a (ones (suc k)), bit_and-ones k (a / 2))

bit_and-shl : (k a m : ℕ) → bit_and a (shl k m) ≡ shl k (bit_and (high k a) m)
bit_and-shl zero a m = refl
bit_and-shl (suc k) a m = ground (arith, bit_and-lowest a (shl (suc k) m), bit_and-shl k (a / 2) m)

low-power : (k a : ℕ) → low k a < power k
low-power zero a = omega arith
low-power (suc k) a = omega (arith, low-power k (a / 2))

shl-high : (k a : ℕ) → a ≡ shl k (high k a) + low k a
shl-high zero a = omega arith
shl-high (suc k) a = omega (arith, shl-high k (a / 2))

bit_or-nil : (left x : ℕ) → x ≤ left → bit_or x 0 ≡ x
bit_or-nil zero x h = ap (λ x. bit_or x 0) {y = 0} (omega arith) ∙ omega arith
bit_or-nil (suc left) x h = ground (arith, bit_or-lowest x 0, bit_or-nil left (x / 2) (omega arith))

bit_or-shl : (k a b : ℕ) → b < power k → bit_or (shl k a) b ≡ shl k a + b
bit_or-shl zero a zero h = omega (arith, bit_or-nil a a (le_refl _))
bit_or-shl zero a (suc b) h = absurd (omega arith)
bit_or-shl (suc k) a b h = ground (arith, bit_or-lowest (shl (suc k) a) b, bit_or-shl k a (b / 2))

-- Two bit fields that do not overlap.
pub bit_or-above : (k a b w : ℕ) → shl k a ≡ w → b < power k → bit_or w b ≡ w + b
bit_or-above k a b w e h = subst (λ w. bit_or w b ≡ w + b) e (bit_or-shl k a b h)

pub bit_and-low_8 : (a : ℕ) → bit_and a 0xff ≡ a % 256
bit_and-low_8 a = omega (arith, bit_and-ones 8 a, low-power 8 a, shl-high 8 a)

pub bit_and-next_8 : (a : ℕ) → bit_and a 0xff00 / 256 ≡ a / 256 % 256
bit_and-next_8 a =
    omega (arith, bit_and-shl 8 a 255, bit_and-low_8 (high 8 a), low-power 8 a, shl-high 8 a)

pub bit_and-high_16 : (a : ℕ) → bit_and a 0xffff0000 / 65536 ≡ a / 65536 % 65536
bit_and-high_16 a = omega (
  arith,
  bit_and-shl 16 a 65535,
  bit_and-ones 16 (high 16 a),
  low-power 16 a,
  shl-high 16 a,
  low-power 16 (high 16 a),
  shl-high 16 (high 16 a),
)
