-- ===== src/Tcpinfo/Linux/Layout.antt =====
-- pkg/tcpinfo/tcpinfo_linux.go: which nullable fields `Unpack` fills, the kernel version that it
-- asks for, and the offset behind the field in struct tcp_info, as the comments on `RawTCPInfo`
-- give it.

use sockstats.Common.{
  Bool-cases, inl, inr, sym, ℕ, ◌≡◌, refl, ◌∙◌, Bool, true, false, List, [], ◌∷◌, All, Result,
}
use sockstats.Common.Text.{Text}
use sockstats.Kernel.Version.{VersionInfo, compare_kernel_version}
use sockstats.Tcpinfo.Linux.Raw.{RawTcpInfo}
use sockstats.Tcpinfo.Linux.SysInfo.{SysInfo}
use sockstats.Tcpinfo.Linux.Unpack.{since, unpack}
use sockstats.Tcpinfo.Linux.Versions.Flags.{Told, at_least_trans, adapt_to_kernel_version-flags}
use sockstats.Tcpinfo.Linux.Versions.{
  Globals, version, at_least, tcp_info_sizes, effective_version, adapt_to_kernel_version,
}

-- A nullable field: its `Valid`, the version of the kernel that brought it, by the comments on
-- `RawTCPInfo`, and its end.
pub record VersionedField : Type 0 where
  pub valid : SysInfo → Bool
  pub needs : VersionInfo
  pub last : ℕ

abbrev versioned : (SysInfo → Bool) → VersionInfo → ℕ → VersionedField
versioned f v n = record { valid = f; needs = v; last = n }

abbrev pub versioned_fields : List VersionedField
versioned_fields =
    versioned (λ s. s.delivery_rate_app_limited.valid) (version 4 9 0) 8
    ∷ versioned (λ s. s.fast_open_client_fail.valid) (version 5 5 0) 8
    ∷ versioned (λ s. s.pacing_rate.valid) (version 3 15 0) 112
    ∷ versioned (λ s. s.max_pacing_rate.valid) (version 3 15 0) 120
    ∷ versioned (λ s. s.bytes_acked.valid) (version 4 1 0) 128
    ∷ versioned (λ s. s.bytes_received.valid) (version 4 1 0) 136
    ∷ versioned (λ s. s.segs_out.valid) (version 4 2 0) 140
    ∷ versioned (λ s. s.segs_in.valid) (version 4 2 0) 144
    ∷ versioned (λ s. s.not_sent_bytes.valid) (version 4 6 0) 148
    ∷ versioned (λ s. s.min_rtt.valid) (version 4 6 0) 152
    ∷ versioned (λ s. s.data_segs_in.valid) (version 4 6 0) 156
    ∷ versioned (λ s. s.data_segs_out.valid) (version 4 6 0) 160
    ∷ versioned (λ s. s.delivery_rate.valid) (version 4 9 0) 168
    ∷ versioned (λ s. s.busy_time.valid) (version 4 10 0) 176
    ∷ versioned (λ s. s.rx_window_limited.valid) (version 4 10 0) 184
    ∷ versioned (λ s. s.tx_buffer_limited.valid) (version 4 10 0) 192
    ∷ versioned (λ s. s.delivered.valid) (version 4 18 0) 196
    ∷ versioned (λ s. s.delivered_ce.valid) (version 4 18 0) 200
    ∷ versioned (λ s. s.bytes_sent.valid) (version 4 19 0) 208
    ∷ versioned (λ s. s.bytes_retrans.valid) (version 4 19 0) 216
    ∷ versioned (λ s. s.dsack_dups.valid) (version 4 19 0) 220
    ∷ versioned (λ s. s.reord_seen.valid) (version 4 19 0) 224
    ∷ versioned (λ s. s.rx_out_of_order.valid) (version 5 4 0) 228
    ∷ versioned (λ s. s.tx_window.valid) (version 5 4 0) 232
    ∷ versioned (λ s. s.rx_window.valid) (version 6 2 0) 236
    ∷ versioned (λ s. s.rehash.valid) (version 6 2 0) 240
    ∷ versioned (λ s. s.total_rto.valid) (version 6 7 0) 242
    ∷ versioned (λ s. s.total_rto_recoveries.valid) (version 6 7 0) 244
    ∷ versioned (λ s. s.total_rto_time.valid) (version 6 7 0) 248
    ∷ []

since-valid : {A : Type 0} (b : Bool) (x z : A) → (since b x z).valid ≡ b
since-valid true x z = refl
since-valid false x z = refl

-- The kernel is one of 6.2 to 6.6.
abbrev pub IsEarly : VersionInfo → Type 0
IsEarly v = (at_least v (version 6 2 0) ≡ true) × (at_least v (version 6 7 0) ≡ false)

-- Of all other kernels, those from 6.2 on are those from 6.7 on.
pub at_least-late :
    (v : VersionInfo) → ¬ IsEarly v → at_least v (version 6 2 0) ≡ at_least v (version 6 7 0)
at_least-late v late = elim (Bool-cases (at_least v (version 6 7 0))) [
  | inl new ↦
      at_least_trans v (version 6 7 0) (version 6 2 0) new (unfold compare_kernel_version in refl)
      ∙ sym new
  | inr old ↦ elim (Bool-cases (at_least v (version 6 2 0))) [
    | inl mid ↦ absurd (late (mid, old))
    | inr older ↦ older ∙ sym old
  ]
]

unpack-Told :
    (v : VersionInfo) (g : Globals) (packed : RawTcpInfo)
    → ¬ IsEarly v
    → Told v tcp_info_sizes g
    → All (λ f. f.valid (unpack g.cells packed) ≡ at_least v f.needs) versioned_fields
unfolding unpack
unpack-Told v g packed late
      (
        a6_7,
        (
          a6_2,
          (a5_5, (a5_4, (a4_19, (a4_18, (a4_10, (a4_9, (a4_6, (a4_2, (a4_1, (a3_15, rest)))))))))),
        ),
      ) =
    (
      since-valid _ _ _ ∙ a4_9,
      (
        since-valid _ _ _ ∙ a5_5,
        (
          since-valid _ _ _ ∙ a3_15,
          (
            since-valid _ _ _ ∙ a3_15,
            (
              since-valid _ _ _ ∙ a4_1,
              (
                since-valid _ _ _ ∙ a4_1,
                (
                  since-valid _ _ _ ∙ a4_2,
                  (
                    since-valid _ _ _ ∙ a4_2,
                    (
                      since-valid _ _ _ ∙ a4_6,
                      (
                        since-valid _ _ _ ∙ a4_6,
                        (
                          since-valid _ _ _ ∙ a4_6,
                          (
                            since-valid _ _ _ ∙ a4_6,
                            (
                              since-valid _ _ _ ∙ a4_9,
                              (
                                since-valid _ _ _ ∙ a4_10,
                                (
                                  since-valid _ _ _ ∙ a4_10,
                                  (
                                    since-valid _ _ _ ∙ a4_10,
                                    (
                                      since-valid _ _ _ ∙ a4_18,
                                      (
                                        since-valid _ _ _ ∙ a4_18,
                                        (
                                          since-valid _ _ _ ∙ a4_19,
                                          (
                                            since-valid _ _ _ ∙ a4_19,
                                            (
                                              since-valid _ _ _ ∙ a4_19,
                                              (
                                                since-valid _ _ _ ∙ a4_19,
                                                (
                                                  since-valid _ _ _ ∙ a5_4,
                                                  (
                                                    since-valid _ _ _ ∙ a5_4,
                                                    (
                                                      since-valid _ _ _ ∙ a6_2,
                                                      (
                                                        since-valid _ _ _ ∙ a6_2,
                                                        (
                                                          since-valid _ _ _
                                                            ∙ a6_2
                                                            ∙ at_least-late v late,
                                                          (
                                                            since-valid _ _ _
                                                            ∙ a6_2
                                                            ∙ at_least-late v late,
                                                            (
                                                            since-valid _ _ _
                                                            ∙ a6_2
                                                            ∙ at_least-late v late,
                                                            (tt),
                                                            ),
                                                          ),
                                                        ),
                                                      ),
                                                    ),
                                                  ),
                                                ),
                                              ),
                                            ),
                                          ),
                                        ),
                                      ),
                                    ),
                                  ),
                                ),
                              ),
                            ),
                          ),
                        ),
                      ),
                    ),
                  ),
                ),
              ),
            ),
          ),
        ),
      ),
    )

-- Outside of the versions 6.2 to 6.6, `Unpack` marks each of the 29 nullable fields valid exactly if
-- the running kernel is at least the version that brought the field, which is the one in the comments
-- on `RawTCPInfo`, for the flags that `adaptToKernelVersion` left, whatever they were before it.
pub unpack-valid :
    (r : Result Text VersionInfo) (g : Globals) (packed : RawTcpInfo)
    → ¬ IsEarly (effective_version r)
    → let g' = adapt_to_kernel_version r g in
      All
        (λ f. f.valid (unpack g'.cells packed) ≡ at_least (effective_version r) f.needs)
        versioned_fields
unpack-valid r g packed late =
    unpack-Told (effective_version r) (adapt_to_kernel_version r g) packed late
      (adapt_to_kernel_version-flags r g)

-- On the versions 6.2 to 6.6 the three fields that 6.7 brings are marked valid.
pub unpack-early :
    (r : Result Text VersionInfo) (g : Globals) (packed : RawTcpInfo)
    → IsEarly (effective_version r)
    → let s = unpack (adapt_to_kernel_version r g).cells packed in
      (s.total_rto.valid ≡ true)
      × (s.total_rto_recoveries.valid ≡ true)
      × (s.total_rto_time.valid ≡ true)
unfolding unpack
unpack-early r g packed (from_6_2, _) =
    let flagged = (adapt_to_kernel_version-flags r g).1.0 ∙ from_6_2 in
    (since-valid _ _ _ ∙ flagged, since-valid _ _ _ ∙ flagged, since-valid _ _ _ ∙ flagged)
