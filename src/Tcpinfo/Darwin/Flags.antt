-- ===== src/Tcpinfo/Darwin/Flags.antt =====
-- The text of the flags on Darwin.
use Prim.Native.Nat.{bit_and}
use Prim.Native.String.{String}
use text.Mathlib.Text.{◌==◌ as str_eq}
use sockstats.Common.{Bool, not, ◌||◌, ◌≡◌, refl, ◌==◌, Bool-cases, inl, inr}
use sockstats.Tcpinfo.Darwin.Raw.{RawInfo}
use sockstats.Tcpinfo.Darwin.Unpack.{flag_names, join, tcp_info_tcp_flags_string, unpack}
use sockstats.Tcpinfo.Names.{name_of}

-- Whether a text of flags has the loss recovery, and the reordering.
abbrev pub flags_of : String → Bool × Bool
flags_of t = (
  str_eq t "LOSS_RECOVERY" || str_eq t "LOSS_RECOVERY,REORDERING_DETECTED",
  str_eq t "REORDERING_DETECTED" || str_eq t "LOSS_RECOVERY,REORDERING_DETECTED",
)

-- On Darwin, the text of the flags that `Unpack` reports has each of the names LOSS_RECOVERY and
-- REORDERING_DETECTED, with a comma between them, just where its bit is set: the two bits can be
-- read back from the text.
flags_of-unpack :
    (packed : RawInfo)
    → flags_of (unpack packed).flags
      ≡ (not (bit_and packed.flags 1 == 0), not (bit_and packed.flags 2 == 0))
unfolding unpack tcp_info_tcp_flags_string flag_names join name_of
flags_of-unpack packed = elim (Bool-cases (bit_and packed.flags 1 == 0)) [
  | inl a ↦ elim (Bool-cases (bit_and packed.flags 2 == 0)) [
    | inl b ↦ rw (a, b) refl
    | inr b ↦ rw (a, b) refl
  ]
  | inr a ↦ elim (Bool-cases (bit_and packed.flags 2 == 0)) [
    | inl b ↦ rw (a, b) refl
    | inr b ↦ rw (a, b) refl
  ]
]
