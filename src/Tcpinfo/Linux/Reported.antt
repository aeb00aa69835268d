-- ===== src/Tcpinfo/Linux/Reported.antt =====
-- From the kernel's struct to the map: what is reported of each field that only newer kernels have.
use Prim.Native.Nat.{bit_and}
use Prim.Native.String.{String}
use sockstats.Common.Int.{pos}
use sockstats.Common.Text.{Text}
use sockstats.Common.{
  ℕ, ◌/◌, ◌≡◌, refl, ◌∙◌, ap, Bool, true, false, none, some, List, [], ◌∷◌, All, Present, get_elem?,
  All-get_elem?, Result, ◌==◌, if◌then◌else◌,
}
use sockstats.Kernel.Version.{VersionInfo}
use sockstats.Tcpinfo.AnyMap.Lookup.{given}
use sockstats.Tcpinfo.AnyMap.{Value, uint8, uint16, uint32, uint64, int, flag, lookup}
use sockstats.Tcpinfo.Linux.Layout.{IsEarly, at_least-late}
use sockstats.Tcpinfo.Linux.Raw.{RawTcpInfo}
use sockstats.Tcpinfo.Linux.SysInfo.{SysInfo}
use sockstats.Tcpinfo.Linux.ToMap.Keys.{optional-given}
use sockstats.Tcpinfo.Linux.ToMap.{optional, to_map}
use sockstats.Tcpinfo.Linux.Unpack.{micros, since, unpack}
use sockstats.Tcpinfo.Linux.Versions.Flags.{Told, adapt_to_kernel_version-flags}
use sockstats.Tcpinfo.Linux.Versions.{
  Globals, version, at_least, tcp_info_sizes, effective_version, adapt_to_kernel_version,
}

-- A key of the map, the kernel version that brought its value, by the comments on `RawTCPInfo`, and the value in the kernel's struct.
pub record Reported : Type 0 where
  pub key : String
  pub needs : VersionInfo
  pub value : RawTcpInfo → Value

abbrev reported : String → VersionInfo → (RawTcpInfo → Value) → Reported
reported k v f = record { key = k; needs = v; value = f }

abbrev pub reported_fields : List Reported
reported_fields =
    reported "deliveryRateAppLimited" (version 4 9 0)
      (λ packed. flag (bit_and packed.bitfield1 1 == 1))
    ∷ reported "fastOpenClientFail" (version 5 5 0)
        (λ packed. uint8 (bit_and (packed.bitfield1 / 2) 3))
    ∷ reported "pacingRate" (version 3 15 0) (λ packed. uint64 packed.pacing_rate)
    ∷ reported "maxPacingRate" (version 3 15 0) (λ packed. uint64 packed.max_pacing_rate)
    ∷ reported "bytesAcked" (version 4 1 0) (λ packed. uint64 packed.bytes_acked)
    ∷ reported "bytesReceived" (version 4 1 0) (λ packed. uint64 packed.bytes_received)
    ∷ reported "segsOut" (version 4 2 0) (λ packed. uint32 packed.segs_out)
    ∷ reported "segsIn" (version 4 2 0) (λ packed. uint32 packed.segs_in)
    ∷ reported "notSentBytes" (version 4 6 0) (λ packed. uint32 packed.notsent_bytes)
    ∷ reported "minRTT" (version 4 6 0) (λ packed. int (micros packed.min_rtt))
    ∷ reported "dataSegsIn" (version 4 6 0) (λ packed. uint32 packed.data_segs_in)
    ∷ reported "dataSegsOut" (version 4 6 0) (λ packed. uint32 packed.data_segs_out)
    ∷ reported "deliveryRate" (version 4 9 0) (λ packed. uint64 packed.delivery_rate)
    ∷ reported "busyTime" (version 4 10 0) (λ packed. uint64 packed.busy_time)
    ∷ reported "rxWindowLimited" (version 4 10 0) (λ packed. uint64 packed.rwnd_limited)
    ∷ reported "txBufferLimited" (version 4 10 0) (λ packed. uint64 packed.sndbuf_limited)
    ∷ reported "delivered" (version 4 18 0) (λ packed. uint32 packed.delivered)
    ∷ reported "deliveredCE" (version 4 18 0) (λ packed. uint32 packed.delivered_ce)
    ∷ reported "bytesSent" (version 4 19 0) (λ packed. uint64 packed.bytes_sent)
    ∷ reported "bytesRetrans" (version 4 19 0) (λ packed. uint64 packed.bytes_retrans)
    ∷ reported "dsackDups" (version 4 19 0) (λ packed. uint32 packed.dsack_dups)
    ∷ reported "reordSeen" (version 4 19 0) (λ packed. uint32 packed.reord_seen)
    ∷ reported "rxOutOfOrder" (version 5 4 0) (λ packed. uint32 packed.rcv_ooopack)
    ∷ reported "txWindow" (version 5 4 0) (λ packed. uint32 packed.snd_wnd)
    ∷ reported "rxWindow" (version 6 2 0) (λ packed. uint32 packed.rcv_wnd)
    ∷ reported "rehash" (version 6 2 0) (λ packed. uint32 packed.rehash)
    ∷ reported "totalRTO" (version 6 7 0) (λ packed. uint16 packed.total_rto)
    ∷ reported "totalRTORecoveries" (version 6 7 0) (λ packed. uint16 packed.total_rto_recoveries)
    ∷ reported "totalRTOTime" (version 6 7 0) (λ packed. uint32 packed.total_rto_time)
    ∷ []

given-since :
    {A : Type 0} (b : Bool) (x z : A) (f : A → Value)
    → (if (since b x z).valid then some (f (since b x z).value) else none)
      ≡ (if b then some (f x) else none)
given-since true x z f = refl
given-since false x z f = refl

-- The value where the flag `a` of the version is what the comparison `b` says.
given_told :
    {A : Type 0} {a b : Bool} (x z : A) (f : A → Value)
    → a ≡ b
    → (if (since a x z).valid then some (f (since a x z).value) else none)
      ≡ (if b then some (f x) else none)
given_told {a = a} x z f e = given-since a x z f ∙ ap (λ c. if c then some (f x) else none) e

-- What the map holds under the optional key at a place.
optional_at :
    (s : SysInfo) (i : ℕ)
    → Present (λ e. lookup e.key (to_map s) ≡ given e) (get_elem? (optional s) i)
optional_at s i = All-get_elem? _ (optional s) i (optional-given s)

reported_fields-Told :
    (v : VersionInfo) (g : Globals) (packed : RawTcpInfo)
    → ¬ IsEarly v
    → Told v tcp_info_sizes g
    → All
        (λ f.
          lookup f.key (to_map (unpack g.cells packed))
          ≡ (if at_least v f.needs then some (f.value packed) else none))
        reported_fields
unfolding unpack optional
reported_fields-Told v g packed late
      (
        a6_7,
        (
          a6_2,
          (a5_5, (a5_4, (a4_19, (a4_18, (a4_10, (a4_9, (a4_6, (a4_2, (a4_1, (a3_15, rest)))))))))),
        ),
      ) =
    let map_at = optional_at (unpack g.cells packed) in
    (
      map_at 0 ∙ given_told (bit_and packed.bitfield1 1 == 1) false flag a4_9,
      (
        map_at 1 ∙ given_told (bit_and (packed.bitfield1 / 2) 3) 0 uint8 a5_5,
        (
          map_at 2 ∙ given_told packed.pacing_rate 0 uint64 a3_15,
          (
            map_at 3 ∙ given_told packed.max_pacing_rate 0 uint64 a3_15,
            (
              map_at 4 ∙ given_told packed.bytes_acked 0 uint64 a4_1,
              (
                map_at 5 ∙ given_told packed.bytes_received 0 uint64 a4_1,
                (
                  map_at 6 ∙ given_told packed.segs_out 0 uint32 a4_2,
                  (
                    map_at 7 ∙ given_told packed.segs_in 0 uint32 a4_2,
                    (
                      map_at 8 ∙ given_told packed.notsent_bytes 0 uint32 a4_6,
                      (
                        map_at 9 ∙ given_told (micros packed.min_rtt) (pos 0) int a4_6,
                        (
                          map_at 10 ∙ given_told packed.data_segs_in 0 uint32 a4_6,
                          (
                            map_at 11 ∙ given_told packed.data_segs_out 0 uint32 a4_6,
                            (
                              map_at 12 ∙ given_told packed.delivery_rate 0 uint64 a4_9,
                              (
                                map_at 13 ∙ given_told packed.busy_time 0 uint64 a4_10,
                                (
                                  map_at 14 ∙ given_told packed.rwnd_limited 0 uint64 a4_10,
                                  (
                                    map_at 15 ∙ given_told packed.sndbuf_limited 0 uint64 a4_10,
                                    (
                                      map_at 16 ∙ given_told packed.delivered 0 uint32 a4_18,
                                      (
                                        map_at 17 ∙ given_told packed.delivered_ce 0 uint32 a4_18,
                                        (
                                          map_at 18 ∙ given_told packed.bytes_sent 0 uint64 a4_19,
                                          (
                                            map_at 19
                                                ∙ given_told packed.bytes_retrans 0 uint64 a4_19,
                                            (
                                              map_at 20
                                                  ∙ given_told packed.dsack_dups 0 uint32 a4_19,
                                              (
                                                map_at 21
                                                    ∙ given_told packed.reord_seen 0 uint32 a4_19,
                                                (
                                                  map_at 22
                                                      ∙ given_told packed.rcv_ooopack 0 uint32 a5_4,
                                                  (
                                                    map_at 23
                                                        ∙ given_told packed.snd_wnd 0 uint32 a5_4,
                                                    (
                                                      map_at 24
                                                          ∙ given_told packed.rcv_wnd 0 uint32 a6_2,
                                                      (
                                                        map_at 25
                                                            ∙ given_told packed.rehash 0 uint32
                                                            a6_2,
                                                        (
                                                          map_at 26
                                                            ∙ given_told packed.total_rto 0 uint16
                                                            (a6_2 ∙ at_least-late v late),
                                                          (
                                                            map_at 27
                                                            ∙ given_told packed.total_rto_recoveries
                                                            0 uint16 (a6_2 ∙ at_least-late v late),
                                                            (
                                                            map_at 28
                                                            ∙ given_told packed.total_rto_time 0
                                                            uint32 (a6_2 ∙ at_least-late v late),
                                                            (tt),
                                                            ),
                                                          ),
                                                        ),
                                                      ),
                                                    ),
                                                  ),
                                                ),
                                              ),
                                            ),
                                          ),
                                        ),
                                      ),
                                    ),
                                  ),
                                ),
                              ),
                            ),
                          ),
                        ),
                      ),
                    ),
                  ),
                ),
              ),
            ),
          ),
        ),
      ),
    )

-- Outside of the versions 6.2 to 6.6: for each of the 29 fields that only newer kernels have, the map
-- of what `Unpack` makes of the kernel's struct holds the field's value under its key if the running
-- kernel is at least the version that brought the field, which is the one in the comments on
-- `RawTCPInfo`, and has no such key otherwise.
pub lookup-to_map-unpack :
    (r : Result Text VersionInfo) (g : Globals) (packed : RawTcpInfo)
    → ¬ IsEarly (effective_version r)
    → All
        (λ f.
          lookup f.key (to_map (unpack (adapt_to_kernel_version r g).cells packed))
          ≡ (if at_least (effective_version r) f.needs then some (f.value packed) else none))
        reported_fields
lookup-to_map-unpack r g packed late =
    reported_fields-Told (effective_version r) (adapt_to_kernel_version r g) packed late
      (adapt_to_kernel_version-flags r g)
