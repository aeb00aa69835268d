-- ===== src/Kernel/Version/Order.antt =====
-- pkg/kernel/kernel.go: `CompareKernelVersion` as an order.
use sockstats.Common.{◌≡◌, ◌↔◌, ◌⊎◌, inl, inr, arith}
use sockstats.Common.Int.{pos, negsuc, ◌<ℤ◌, ◌≤ℤ◌}
use sockstats.Kernel.Version.{VersionInfo, compare_kernel_version}

-- `a` comes before `b`: the first number in which they differ is smaller in `a`.
abbrev pub Before : VersionInfo → VersionInfo → Type 0
Before a b =
    (a.kernel <ℤ b.kernel)
    ⊎ (a.kernel ≡ b.kernel) × ((a.major <ℤ b.major) ⊎ (a.major ≡ b.major) × (a.minor <ℤ b.minor))

abbrev pub SameNumbers : VersionInfo → VersionInfo → Type 0
SameNumbers a b = (a.kernel ≡ b.kernel) × (a.major ≡ b.major) × (a.minor ≡ b.minor)

-- `CompareKernelVersion` returns -1 exactly when the first version comes before the second in the
-- lexicographic order of the three numbers, 1 exactly when it comes after, and 0 exactly when
-- the three numbers agree; the flavor is not looked at.
pub compare_kernel_version-Before :
    (a b : VersionInfo)
    → ((compare_kernel_version a b ≡ negsuc 0) ↔ Before a b)
      × ((compare_kernel_version a b ≡ pos 1) ↔ Before b a)
      × ((compare_kernel_version a b ≡ pos 0) ↔ SameNumbers a b)
unfolding compare_kernel_version
compare_kernel_version-Before a b = ground arith

-- `a` is at least `b`, by the orders of the three numbers alone.
abbrev AtLeast : VersionInfo → VersionInfo → Type 0
AtLeast a b =
    (b.kernel <ℤ a.kernel)
    ⊎ (b.kernel ≤ℤ a.kernel) × ((b.major <ℤ a.major) ⊎ (b.major ≤ℤ a.major) × (b.minor ≤ℤ a.minor))

AtLeast-of_compare : (a b : VersionInfo) → pos 0 ≤ℤ compare_kernel_version a b → AtLeast a b
unfolding compare_kernel_version
AtLeast-of_compare a b h = ground arith

compare_of_AtLeast : (a b : VersionInfo) → AtLeast a b → pos 0 ≤ℤ compare_kernel_version a b
unfolding compare_kernel_version
compare_of_AtLeast a b h = ground arith

AtLeast-trans : (a b c : VersionInfo) → AtLeast a b → AtLeast b c → AtLeast a c
AtLeast-trans a b c (inl h) (inl k) = inl (omega arith)
AtLeast-trans a b c (inl h) (inr k) = inl (omega (arith, k.0))
AtLeast-trans a b c (inr h) (inl k) = inl (omega (arith, h.0))
AtLeast-trans a b c (inr (h, inl h')) (inr (k, inl k')) = inr (omega arith, inl (omega arith))
AtLeast-trans a b c (inr (h, inl h')) (inr (k, inr k')) =
    inr (omega arith, inl (omega (arith, k'.0)))
AtLeast-trans a b c (inr (h, inr h')) (inr (k, inl k')) =
    inr (omega arith, inl (omega (arith, h'.0)))
AtLeast-trans a b c (inr (h, inr h')) (inr (k, inr k')) =
    inr (omega arith, inr (omega (arith, h'.0, k'.0), omega (arith, h'.1, k'.1)))

-- "At least" is transitive: it is the order that the table of struct sizes is searched by.
pub compare_kernel_version-trans :
    (a b c : VersionInfo)
    → pos 0 ≤ℤ compare_kernel_version a b
    → pos 0 ≤ℤ compare_kernel_version b c
    → pos 0 ≤ℤ compare_kernel_version a c
compare_kernel_version-trans a b c h k =
    compare_of_AtLeast a c
      (AtLeast-trans a b c (AtLeast-of_compare a b h) (AtLeast-of_compare b c k))
