-- ===== src/Tcpinfo/Linux/Unpack/Options.antt =====
-- The negotiated options that `Unpack` lists: the bits of the options byte, by name.
use Prim.Native.Nat.{bit_and}
use Prim.Native.String.{String}
use text.Mathlib.Text.{◌==◌ as str_eq}
use sockstats.Common.Table.{table, table-lookup}
use sockstats.Common.{
  ℕ, ◌+◌, ◌<◌, ◌≡◌, refl, ◌∙◌, ap, eq_of_==, true, List, [], ◌∷◌, arith, ◌==◌, if◌then◌else◌,
  Bool-cases, inl, inr,
}
use sockstats.Tcpinfo.Linux.Raw.{RawTcpInfo}
use sockstats.Tcpinfo.Linux.Unpack.{linux_options, tcp_options_map, tcp_options, unpack}
use sockstats.Tcpinfo.Linux.Versions.{Cells}
use sockstats.Tcpinfo.Names.{name_of}
use sockstats.Tcpinfo.Options.{Known, set_options, add_options-eq}
use sockstats.Tcpinfo.TcpOption.{TcpOption}

linux_options-Known : Known linux_options tcp_options
linux_options-Known = ground arith

-- `Unpack` lists exactly the options whose bits are set in the options byte, in the order of the
-- bits and under their names in `tcpOptionsMap`, in both lists. The value is 0 but for the option
-- "WindowScale", where it is the kernel's send window in the sent list and its receive window in
-- the received list.
pub unpack-options :
    (at : Cells) (packed : RawTcpInfo)
    → ((unpack at packed).tx_options
        ≡ set_options linux_options packed.options packed.snd_wnd tcp_options)
      × ((unpack at packed).rx_options
          ≡ set_options linux_options packed.options packed.rcv_wnd tcp_options)
unfolding unpack
unpack-options at packed =
    add_options-eq linux_options packed.options packed.snd_wnd packed.rcv_wnd tcp_options ([], [])
      linux_options-Known

-- The byte that the names of a list of options stand for.
abbrev pub flag_of : String → List ℕ → ℕ
flag_of k [] = 0
flag_of k (f ∷ fs) = if str_eq (name_of f tcp_options_map) k then f else flag_of k fs

abbrev pub options_byte : List TcpOption → ℕ
options_byte [] = 0
options_byte (o ∷ os) = flag_of o.kind tcp_options + options_byte os

-- The values of the options do not matter for the byte.
options_byte-set_options :
    (n w : ℕ) (fs : List ℕ)
    → options_byte (set_options linux_options n w fs)
      ≡ options_byte (set_options linux_options n 0 fs)
options_byte-set_options n w [] = refl
options_byte-set_options n w (f ∷ fs) = elim (Bool-cases (bit_and n f == 0)) [
  | inl unset ↦ rw unset (options_byte-set_options n w fs)
  | inr is_set ↦ rw is_set (
      ap (λ (m : ℕ). flag_of (name_of f tcp_options_map) tcp_options + m)
        (options_byte-set_options n w fs))
]

options_byte-table :
    table (λ n. options_byte (set_options linux_options n 0 tcp_options) == n) 256 ≡ true
unfolding table name_of
options_byte-table = refl

-- Nothing of an options byte is lost: the kinds that `Unpack` lists determine it.
pub options_byte-unpack :
    (at : Cells) (packed : RawTcpInfo)
    → packed.options < 256
    → options_byte (unpack at packed).tx_options ≡ packed.options
options_byte-unpack at packed h =
    ap options_byte (unpack-options at packed).0
    ∙ options_byte-set_options packed.options packed.snd_wnd tcp_options
    ∙ eq_of_== _ _ (table-lookup _ packed.options 256 h options_byte-table)
