-- ===== src/Tcpinfo/AnyMap/Kinds.antt =====
-- The kinds of the values in a map, and maps in which each key has values of its own kind.
use Prim.Native.String.{String}
use mathlib.Core.Path.{subst}
use text.Mathlib.Text.{◌==◌ as str_eq}
use text.Mathlib.TextEquality.{eq_iff}
use sockstats.Common.{
  ◌≡◌, Bool, true, false, ◌&&◌, some, List, [], ◌∷◌, arith, Bool-cases, inl, inr,
}
use sockstats.Tcpinfo.AnyMap.Defs.{
  Value, uint8, uint16, uint32, uint64, int, str, flag, texts, options, obj, Fields, end, field,
  assign, lookup, Entry, assign_valid,
}

-- The kinds of Go types that the maps hold: unsigned integers by their width, signed ones and
-- durations, strings, Booleans, lists of strings and of options, and maps. `unsigned` is the kind
-- of a key whose width is not the same in all maps.
pub data Kind : Type 0 where
  unsigned : Kind
  unsigned_8 : Kind
  unsigned_16 : Kind
  unsigned_32 : Kind
  unsigned_64 : Kind
  signed : Kind
  string : Kind
  boolean : Kind
  text_list : Kind
  option_list : Kind
  map : Kind

abbrev pub kind : Value → Kind
kind (uint8 n) = unsigned_8
kind (uint16 n) = unsigned_16
kind (uint32 n) = unsigned_32
kind (uint64 n) = unsigned_64
kind (int n) = signed
kind (str s) = string
kind (flag b) = boolean
kind (texts ts) = text_list
kind (options os) = option_list
kind (obj m) = map

-- Whether a value of the first kind may stand under a key of the second one.
abbrev pub fits : Kind → Kind → Bool
fits unsigned unsigned = true
fits unsigned_8 unsigned = true
fits unsigned_16 unsigned = true
fits unsigned_32 unsigned = true
fits unsigned_64 unsigned = true
fits unsigned_8 unsigned_8 = true
fits unsigned_16 unsigned_16 = true
fits unsigned_32 unsigned_32 = true
fits unsigned_64 unsigned_64 = true
fits signed signed = true
fits string string = true
fits boolean boolean = true
fits text_list text_list = true
fits option_list option_list = true
fits map map = true
fits _ _ = false

module _ (kind_of : String → Kind) where
  -- Each value is of the kind of its key.
  abbrev pub is_typed : Fields → Bool
  is_typed end = true
  is_typed (field k v m) = fits (kind v) (kind_of k) && is_typed m

  abbrev pub are_typed : List Entry → Bool
  are_typed [] = true
  are_typed (e ∷ es) = fits (kind e.value) (kind_of e.key) && are_typed es

  pub lookup-is_typed :
      (k : String) (m : Fields) (v : Value)
      → is_typed m ≡ true
      → lookup k m ≡ some v
      → fits (kind v) (kind_of k) ≡ true
  unfolding lookup
  lookup-is_typed k end v h e = ground arith
  lookup-is_typed k (field j w m) v h e = elim (Bool-cases (str_eq j k)) [
    | inl same ↦
        let e' : j ≡ k = (eq_iff j k).0 same in
        subst (λ j. fits (kind v) (kind_of j) ≡ true) e' (ground arith)
    | inr other ↦ lookup-is_typed k m v (ground arith) (ground arith)
  ]

  pub assign-is_typed :
      (k : String) (v : Value) (m : Fields)
      → fits (kind v) (kind_of k) ≡ true
      → is_typed m ≡ true
      → is_typed (assign k v m) ≡ true
  unfolding assign
  assign-is_typed k v end h hs = ground arith
  assign-is_typed k v (field j w m) h hs = ground (arith, eq_iff j k, assign-is_typed k v m)

  pub assign_valid-is_typed :
      (es : List Entry) (m : Fields)
      → are_typed es ≡ true
      → is_typed m ≡ true
      → is_typed (assign_valid es m) ≡ true
  unfolding assign_valid
  assign_valid-is_typed [] m h hs = hs
  assign_valid-is_typed (e ∷ es) m h hs = elim (Bool-cases e.valid) [
    | inl on ↦
        let more = assign-is_typed e.key e.value m (ground arith) hs in
        rw (on) (assign_valid-is_typed es _ (ground arith) more)
    | inr off ↦ rw (off) (assign_valid-is_typed es m (ground arith) hs)
  ]
