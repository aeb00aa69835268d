-- ===== src/Tcpinfo/Linux/Get/Outcome.antt =====
-- What `GetTCPInfo` returns, over every way in which the system calls can go.
use mathlib.Core.Path.{subst}
use mathlib.Core.Option.{some-injective}
use Prim.Native.String.{String}
use text.Mathlib.Text.{◌==◌ as str_eq}
use text.Mathlib.TextEquality.{eq_iff}
use sockstats.Common.{
  ◌≡◌, Bool-cases, inl, inr, false, refl, sym, ap, ◌∙◌, true, ◌&&◌, ◌||◌, Option, none, some,
  Result, ok, err, arith, ◌==◌, if◌then◌else◌,
}
use sockstats.Tcpinfo.Linux.Get.{
  Both, VegasInfo, BbrInfo, DctcpInfo, with_vegas, with_bbr, with_dctcp, Error, Sockopts,
  TcpInfoPlusCc, plain_info, is_some, get_raw_tcp_info, get_tcp_congestion_algorithm, unpack_cc,
  get_cc, get_with_raw, get_tcp_info, supported,
}
use sockstats.Tcpinfo.Linux.Raw.{RawTcpInfo}
use sockstats.Tcpinfo.Linux.SysInfo.{SysInfo}
use sockstats.Tcpinfo.Linux.Unpack.{unpack}
use sockstats.Tcpinfo.Linux.Versions.{Cells}

abbrev pub error_of : {A : Type 0} → Result Error A → Option Error
error_of (ok _) = none
error_of (err e) = some e

-- The error of the call that is made for an algorithm; for another name none is made.
abbrev pub cc_error : Sockopts → String → Option Error
cc_error k alg =
    if str_eq alg "vegas"
    then error_of k.vegas
    else if str_eq alg "bbr"
    then error_of k.bbr
    else if str_eq alg "dctcp"
    then error_of k.dctcp
    else none

get_cc-error :
    (at : Cells) (k : Sockopts) (t : TcpInfoPlusCc) (alg : String)
    → (is_some (get_cc at k t alg).0 ≡ true) × ((get_cc at k t alg).1 ≡ cc_error k alg)
unfolding get_cc
get_cc-error at k t alg = ground arith

get_with_raw-is_some :
    (at : Cells) (k : Sockopts) (raw : RawTcpInfo) → is_some (get_with_raw at k raw).0 ≡ true
unfolding get_with_raw get_tcp_congestion_algorithm get_cc
get_with_raw-is_some at k raw = go k.congestion refl
  where
    go : (c : Result Error String) → k.congestion ≡ c → is_some (get_with_raw at k raw).0 ≡ true
    go (ok alg) e = rw (e, get_with_raw) (get_cc-error at k _ alg).0
    go (err x) e = rw (e, get_with_raw)

-- `GetTCPInfo` returns statistics exactly if the platform is supported and the TCP_INFO call
-- succeeds, whatever becomes of the calls for the congestion control; without statistics it
-- always returns an error.
pub get_tcp_info-is_some :
    (at : Cells) (k : Sockopts)
    → (is_some (get_tcp_info at k).0 ≡ (supported at && k.raw_errno == 0))
      × ((is_some (get_tcp_info at k).0 || is_some (get_tcp_info at k).1) ≡ true)
unfolding get_tcp_info get_raw_tcp_info supported
get_tcp_info-is_some at k = ground (arith, get_with_raw-is_some at k k.raw)

-- All fields of an algorithm are valid exactly if the algorithm is the one named.
abbrev pub Families : SysInfo → String → Type 0
Families s alg =
    (s.cc_vegas_enabled.valid ≡ str_eq alg "vegas")
    × (s.cc_vegas_rtt_cnt.valid ≡ str_eq alg "vegas")
    × (s.cc_vegas_rtt.valid ≡ str_eq alg "vegas")
    × (s.cc_vegas_rtt_min.valid ≡ str_eq alg "vegas")
    × (s.cc_bbr_bw_lo.valid ≡ str_eq alg "bbr")
    × (s.cc_bbr_bw_hi.valid ≡ str_eq alg "bbr")
    × (s.cc_bbr_min_rtt.valid ≡ str_eq alg "bbr")
    × (s.cc_bbr_pacing_gain.valid ≡ str_eq alg "bbr")
    × (s.cc_bbr_c_window_gain.valid ≡ str_eq alg "bbr")
    × (s.cc_dctcp_enabled.valid ≡ str_eq alg "dctcp")
    × (s.cc_dctcp_ce_state.valid ≡ str_eq alg "dctcp")
    × (s.cc_dctcp_alpha.valid ≡ str_eq alg "dctcp")
    × (s.cc_dctcp_ab_ecn.valid ≡ str_eq alg "dctcp")
    × (s.cc_dctcp_ab_tot.valid ≡ str_eq alg "dctcp")

abbrev Named : String → SysInfo → Type 0
Named alg s = (s.cc_algorithm ≡ alg) × Families s alg

some-not-none : {A : Type 0} {x : A} → ¬ some x ≡ none
some-not-none h = ground arith

returned : {s t : SysInfo} (a : Both) → a ≡ (some t, none) → a ≡ (some s, none) → t ≡ s
returned a h h' = some-injective _ _ (ap (λ p. p.0) (sym h ∙ h'))

module _ (at : Cells) (k : Sockopts) (raw : RawTcpInfo) where
  abbrev asked : String → TcpInfoPlusCc
  asked alg = record (plain_info raw) { cc_alg = alg }

  abbrev Gives : String → SysInfo → Type 0
  unfolding get_cc
  Gives alg s = get_cc at k (asked alg) alg ≡ (some s, none)

  get_cc-vegas : (s : SysInfo) → Gives "vegas" s → Named "vegas" s
  unfolding get_cc unpack_cc with_vegas unpack
  get_cc-vegas s h = go k.vegas refl
    where
      go : (r : Result Error VegasInfo) → k.vegas ≡ r → Named "vegas" s
      go (ok v) e =
          let given : get_cc at k (asked "vegas") "vegas"
              ≡ (some (unpack_cc at (record (asked "vegas") { cc_vegas = some v })), none) =
            rw (e, get_cc) refl in
          subst (Named "vegas") (returned _ given h) (
            refl,
            (refl, refl, refl, refl, refl, refl, refl, refl, refl, refl, refl, refl, refl, refl),
          )
      go (err x) e =
          let failed : (get_cc at k (asked "vegas") "vegas").1 ≡ some x = rw (e, get_cc) refl in
          absurd (some-not-none (sym failed ∙ ap (λ p. p.1) h))

  get_cc-bbr : (s : SysInfo) → Gives "bbr" s → Named "bbr" s
  unfolding get_cc unpack_cc with_bbr unpack
  get_cc-bbr s h = go k.bbr refl
    where
      go : (r : Result Error BbrInfo) → k.bbr ≡ r → Named "bbr" s
      go (ok v) e =
          let given : get_cc at k (asked "bbr") "bbr"
              ≡ (some (unpack_cc at (record (asked "bbr") { cc_bbr = some v })), none) =
            rw (e, get_cc) refl in
          subst (Named "bbr") (returned _ given h) (
            refl,
            (refl, refl, refl, refl, refl, refl, refl, refl, refl, refl, refl, refl, refl, refl),
          )
      go (err x) e =
          let failed : (get_cc at k (asked "bbr") "bbr").1 ≡ some x = rw (e, get_cc) refl in
          absurd (some-not-none (sym failed ∙ ap (λ p. p.1) h))

  get_cc-dctcp : (s : SysInfo) → Gives "dctcp" s → Named "dctcp" s
  unfolding get_cc unpack_cc with_dctcp unpack
  get_cc-dctcp s h = go k.dctcp refl
    where
      go : (r : Result Error DctcpInfo) → k.dctcp ≡ r → Named "dctcp" s
      go (ok v) e =
          let given : get_cc at k (asked "dctcp") "dctcp"
              ≡ (some (unpack_cc at (record (asked "dctcp") { cc_dctp = some v })), none) =
            rw (e, get_cc) refl in
          subst (Named "dctcp") (returned _ given h) (
            refl,
            (refl, refl, refl, refl, refl, refl, refl, refl, refl, refl, refl, refl, refl, refl),
          )
      go (err x) e =
          let failed : (get_cc at k (asked "dctcp") "dctcp").1 ≡ some x = rw (e, get_cc) refl in
          absurd (some-not-none (sym failed ∙ ap (λ p. p.1) h))

  get_cc-other :
      (alg : String) (s : SysInfo)
      → str_eq alg "vegas" ≡ false
      → str_eq alg "bbr" ≡ false
      → str_eq alg "dctcp" ≡ false
      → Gives alg s
      → Named alg s
  unfolding get_cc unpack_cc unpack
  get_cc-other alg s v b d h =
      let given : get_cc at k (asked alg) alg ≡ (some (unpack_cc at (asked alg)), none) =
        rw (v, get_cc, b, d) refl in
      subst (Named alg) (returned _ given h) (
        refl,
        (
          sym v,
          sym v,
          sym v,
          sym v,
          sym b,
          sym b,
          sym b,
          sym b,
          sym b,
          sym d,
          sym d,
          sym d,
          sym d,
          sym d,
        ),
      )

  get_cc-Families : (alg : String) (s : SysInfo) → Gives alg s → Named alg s
  get_cc-Families alg s h = elim (Bool-cases (str_eq alg "vegas")) [
    | inl v ↦ named "vegas" ((eq_iff alg "vegas").0 v) (get_cc-vegas s)
    | inr v ↦ elim (Bool-cases (str_eq alg "bbr")) [
      | inl b ↦ named "bbr" ((eq_iff alg "bbr").0 b) (get_cc-bbr s)
      | inr b ↦ elim (Bool-cases (str_eq alg "dctcp")) [
        | inl d ↦ named "dctcp" ((eq_iff alg "dctcp").0 d) (get_cc-dctcp s)
        | inr d ↦ get_cc-other alg s v b d h
      ]
    ]
  ]
    where
      named : (name : String) → alg ≡ name → (Gives name s → Named name s) → Named alg s
      named name e holds = subst (λ n. Gives n s → Named n s) (sym e) holds h

get_tcp_info-raw :
    (at : Cells) (k : Sockopts) (s : SysInfo)
    → get_tcp_info at k ≡ (some s, none)
    → get_with_raw at k k.raw ≡ (some s, none)
unfolding get_tcp_info get_raw_tcp_info
get_tcp_info-raw at k s h = ground (arith, h)

-- Where `GetTCPInfo` succeeds, the algorithm is the one that the kernel named, and each of the four
-- fields of Vegas, the five of BBR and the five of DCTCP is valid exactly for the algorithm of that
-- name.
pub get_tcp_info-Families :
    (at : Cells) (k : Sockopts) (s : SysInfo)
    → get_tcp_info at k ≡ (some s, none)
    → (k.congestion ≡ ok s.cc_algorithm) × Families s s.cc_algorithm
unfolding get_with_raw get_tcp_congestion_algorithm get_cc
get_tcp_info-Families at k s h = go k.congestion refl (get_tcp_info-raw at k s h)
  where
    go :
        (c : Result Error String)
        → k.congestion ≡ c
        → get_with_raw at k k.raw ≡ (some s, none)
        → (k.congestion ≡ ok s.cc_algorithm) × Families s s.cc_algorithm
    go (ok alg) e given =
        let asking : get_with_raw at k k.raw ≡ get_cc at k (asked at k k.raw alg) alg =
          rw (e, get_with_raw) refl in
        let (same, families) = get_cc-Families at k k.raw alg s (sym asking ∙ given) in
        (e ∙ ap ok (sym same), subst (Families s) (sym same) families)
    go (err x) e given =
        let failed : (get_with_raw at k k.raw).1 ≡ some x = rw (e, get_with_raw) refl in
        absurd (some-not-none (sym failed ∙ ap (λ p. p.1) given))
