-- ===== src/Tcpinfo/AnyMap/Defs.antt =====
-- Values, maps, the assignment `m[k] = v`, and the guarded assignments of the `ToMap` methods.
use Prim.Native.String.{String}
use text.Mathlib.Text.{◌==◌ as str_eq}
use sockstats.Common.{ℕ, Bool, Option, none, some, List, [], ◌∷◌, if◌then◌else◌}
use sockstats.Common.Int.{ℤ}
use sockstats.Common.Text.{Text}
use sockstats.Tcpinfo.TcpOption.{TcpOption}

mutual
  pub data Value : Type 0 where
    uint8 : ℕ → Value
    uint16 : ℕ → Value
    uint32 : ℕ → Value
    uint64 : ℕ → Value
    int : ℤ → Value
    str : String → Value
    flag : Bool → Value
    texts : List Text → Value
    options : List TcpOption → Value
    obj : Fields → Value

  pub data Fields : Type 0 where
    end : Fields
    field : String → Value → Fields → Fields

unfoldable pub assign : String → Value → Fields → Fields
assign k v end = field k v end
assign k v (field j w m) = if str_eq j k then field j v m else field j w (assign k v m)

unfoldable pub lookup : String → Fields → Option Value
lookup k end = none
lookup k (field j v m) = if str_eq j k then some v else lookup k m

-- A statement `if valid { m[key] = value }`.
pub record Entry : Type 0 where
  pub key : String
  pub valid : Bool
  pub value : Value

abbrev pub entry : String → Bool → Value → Entry
entry k b v = record { key = k; valid = b; value = v }

unfoldable pub assign_valid : List Entry → Fields → Fields
assign_valid [] m = m
assign_valid (e ∷ es) m = assign_valid es (if e.valid then assign e.key e.value m else m)
