-- ===== src/Tcpinfo/Linux/Covered.antt =====
-- The buffer length that `init` chooses against the fields that `Unpack` reads.
use sockstats.Common.{
  ℕ, ◌≤◌, ◌≡◌, refl, ◌∙◌, ◌⊎◌, inl, inr, true, false, ◌&&◌, ltb, All, All-map₂, Present, get_elem?,
  All-get_elem?, arith, Result, Bool-cases,
}
use sockstats.Common.Text.{Text}
use sockstats.Kernel.Version.{VersionInfo, compare_kernel_version}
use sockstats.Tcpinfo.Linux.Layout.{
  VersionedField, versioned_fields, IsEarly, unpack-valid, unpack-early,
}
use sockstats.Tcpinfo.Linux.Raw.{RawTcpInfo}
use sockstats.Tcpinfo.Linux.Unpack.{unpack}
use sockstats.Tcpinfo.Linux.Versions.Flags.{at_least_trans}
use sockstats.Tcpinfo.Linux.Versions.{
  Globals, version, at_least, tcp_info_sizes, effective_version, adapt_from,
  adapt_to_kernel_version,
}

-- The kernel is 4.9, or one of 6.2 to 6.6.
abbrev pub InGap : VersionInfo → Type 0
InGap v =
    (at_least v (version 4 9 0) ≡ true) × (at_least v (version 4 10 0) ≡ false)
    ⊎ (at_least v (version 6 2 0) ≡ true) × (at_least v (version 6 7 0) ≡ false)

abbrev Covers : VersionInfo → Globals → Type 0
Covers v g = All (λ f. at_least v f.needs ≡ true → f.last ≤ g.size_of_raw_tcp_info) versioned_fields

adapt_from-Covers :
    (v : VersionInfo) (g : Globals) → ¬ InGap v → Covers v (adapt_from v tcp_info_sizes g)
unfolding adapt_from
adapt_from-Covers v g ok = ground arith

-- Outside of the versions 4.9 and 6.2 to 6.6, no nullable field that `Unpack` marks valid ends
-- beyond the buffer length that `init` chooses.
pub unpack-covered :
    (r : Result Text VersionInfo) (g : Globals) (packed : RawTcpInfo)
    → ¬ InGap (effective_version r)
    → let g' = adapt_to_kernel_version r g in
      All
        (λ f. (f.valid (unpack g'.cells packed) && ltb g'.size_of_raw_tcp_info f.last) ≡ false)
        versioned_fields
unfolding adapt_to_kernel_version
unpack-covered r g packed ok =
    let g' = adapt_to_kernel_version r g in
    let s = unpack g'.cells packed in
    let v = effective_version r in
    let size = g'.size_of_raw_tcp_info in
    let step : (f : VersionedField)
        → f.valid s ≡ at_least v f.needs
        → (at_least v f.needs ≡ true → f.last ≤ size)
        → (f.valid s && ltb size f.last) ≡ false =
      λ f told covers. ground (arith, told, covers) in
    All-map₂ step versioned_fields (unpack-valid r g packed (λ early. ok (inr early)))
      (adapt_from-Covers (effective_version r) g ok)

-- A kernel that is not at least one version is not at least a later one.
at_least-false :
    (v low high : VersionInfo)
    → at_least high low ≡ true
    → at_least v low ≡ false
    → at_least v high ≡ false
at_least-false v low high h k = elim (Bool-cases (at_least v high)) [
  | inl e ↦ let t = at_least_trans v high low e h in cc
  | inr e ↦ e
]

-- The size is that of the first row that applies, where no row above it does.
size_4_9 :
    (v : VersionInfo) (g : Globals)
    → at_least v (version 4 9 0) ≡ true
    → at_least v (version 4 10 0) ≡ false
    → (adapt_from v tcp_info_sizes g).size_of_raw_tcp_info ≡ 148
unfolding adapt_from
size_4_9 v g h k =
    let below = at_least-false v (version 4 10 0) in
    ground (
      arith,
      below (version 6 7 0) (unfold compare_kernel_version in refl) k,
      below (version 6 2 0) (unfold compare_kernel_version in refl) k,
      below (version 5 5 0) (unfold compare_kernel_version in refl) k,
      below (version 5 4 0) (unfold compare_kernel_version in refl) k,
      below (version 4 19 0) (unfold compare_kernel_version in refl) k,
      below (version 4 18 0) (unfold compare_kernel_version in refl) k,
    )

size_6_2 :
    (v : VersionInfo) (g : Globals)
    → at_least v (version 6 2 0) ≡ true
    → at_least v (version 6 7 0) ≡ false
    → (adapt_from v tcp_info_sizes g).size_of_raw_tcp_info ≡ 240
unfolding adapt_from
size_6_2 v g h k = ground arith

-- What `unpack-valid` says of the field at a place of the table.
valid_at :
    (r : Result Text VersionInfo) (g : Globals) (packed : RawTcpInfo) (i : ℕ)
    → ¬ IsEarly (effective_version r)
    → Present
        (λ f.
          f.valid (unpack (adapt_to_kernel_version r g).cells packed)
          ≡ at_least (effective_version r) f.needs)
        (get_elem? versioned_fields i)
valid_at r g packed i late = All-get_elem? _ versioned_fields i (unpack-valid r g packed late)

-- On a kernel 4.9 the buffer is 148 bytes, and yet `Unpack` marks `MinRTT`, `DataSegsIn`,
-- `DataSegsOut` and `DeliveryRate` valid, which end at the offsets 152, 156, 160 and 168.
unpack-4_9 :
    (r : Result Text VersionInfo) (g : Globals) (packed : RawTcpInfo)
    → at_least (effective_version r) (version 4 9 0) ≡ true
    → at_least (effective_version r) (version 4 10 0) ≡ false
    → let g' = adapt_to_kernel_version r g in
      let s = unpack g'.cells packed in
      (g'.size_of_raw_tcp_info ≡ 148)
      × (s.min_rtt.valid ≡ true)
      × (s.data_segs_in.valid ≡ true)
      × (s.data_segs_out.valid ≡ true)
      × (s.delivery_rate.valid ≡ true)
unpack-4_9 r g packed h k =
    let v = effective_version r in
    let old : at_least v (version 4 6 0) ≡ true =
      at_least_trans v (version 4 9 0) (version 4 6 0) h (unfold compare_kernel_version in refl) in
    let below : at_least v (version 6 2 0) ≡ false =
      at_least-false v (version 4 10 0) (version 6 2 0) (unfold compare_kernel_version in refl) k in
    let late : ¬ IsEarly v = λ early. cc in
    (
      unfold adapt_to_kernel_version in size_4_9 v g h k,
      valid_at r g packed 9 late ∙ old,
      valid_at r g packed 10 late ∙ old,
      valid_at r g packed 11 late ∙ old,
      valid_at r g packed 12 late ∙ h,
    )

-- On a kernel 6.2 to 6.6 the buffer is 240 bytes, and yet `Unpack` marks `TotalRTO`,
-- `TotalRTORecoveries` and `TotalRTOTime` valid, which end at the offsets 242, 244 and 248 and which
-- the comments on `RawTCPInfo` date to 6.7.
unpack-6_2 :
    (r : Result Text VersionInfo) (g : Globals) (packed : RawTcpInfo)
    → at_least (effective_version r) (version 6 2 0) ≡ true
    → at_least (effective_version r) (version 6 7 0) ≡ false
    → let g' = adapt_to_kernel_version r g in
      let s = unpack g'.cells packed in
      (g'.size_of_raw_tcp_info ≡ 240)
      × (s.total_rto.valid ≡ true)
      × (s.total_rto_recoveries.valid ≡ true)
      × (s.total_rto_time.valid ≡ true)
unpack-6_2 r g packed h k =
    let (rto, recoveries, time) = unpack-early r g packed (h, k) in
    (unfold adapt_to_kernel_version in size_6_2 (effective_version r) g h k, rto, recoveries, time)
