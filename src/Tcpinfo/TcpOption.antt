-- ===== src/Tcpinfo/TcpOption.antt =====
-- pkg/tcpinfo/tcpinfo.go: `Option`, a negotiated TCP option, and its print.
use Prim.Native.String.{String}
use sockstats.Common.{ℕ, zero, suc, ◌+◌, ◌-◌, ◌/◌, ◌%◌, [], ◌∷◌, ◌++◌, ltb, ◌==◌, if◌then◌else◌}
use sockstats.Common.Text.{Text, codes}

pub record TcpOption : Type 0 where
  pub kind : String
  pub value : ℕ  -- uint64

hex_digit : ℕ → ℕ
hex_digit d = if ltb d 10 then b'0' + d else b'a' + d - 10

-- The hexadecimal digits of a number in front of `out`, on fuel; `suc n` of it is enough.
hex_onto : ℕ → ℕ → Text → Text
hex_onto zero n out = out
hex_onto (suc f) n out =
    let rest = hex_onto f (n / 16) (hex_digit (n % 16) ∷ out) in
    if ltb n 16 then hex_digit n ∷ out else rest

-- `%.2x`: at least two digits.
unfoldable pub format_hex_2 : ℕ → Text
unfolding hex_onto hex_digit
format_hex_2 n = if ltb n 16 then b'0' ∷ hex_digit n ∷ [] else hex_onto (suc n) n []

-- `(*Option).String`
unfoldable pub to_string : TcpOption → Text
unfolding format_hex_2
to_string o = if o.value == 0 then codes o.kind else codes o.kind ++ (b':' ∷ format_hex_2 o.value)
