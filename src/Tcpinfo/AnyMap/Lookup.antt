-- ===== src/Tcpinfo/AnyMap/Lookup.antt =====
-- What a map holds after the guarded assignments.
use Prim.Native.String.{String}
use text.Mathlib.Text.{◌==◌ as str_eq}
use text.Mathlib.TextEquality.{eq_iff}
use sockstats.Common.{
  ◌≡◌, refl, ◌∙◌, false, Option, none, some, List, [], ◌∷◌, All, arith, if◌then◌else◌,
}
use sockstats.Tcpinfo.AnyMap.Defs.{Value, Fields, end, field, assign, lookup, Entry, assign_valid}

pub lookup-assign :
    (k j : String) (v : Value) (m : Fields)
    → lookup j (assign k v m) ≡ (if str_eq k j then some v else lookup j m)
unfolding lookup assign
lookup-assign k j v end = ground arith
lookup-assign k j v (field i w m) =
    ground (arith, eq_iff k j, eq_iff i k, eq_iff i j, lookup-assign k j v m)

-- No entry has this key.
abbrev pub Lacks : String → List Entry → Type 0
Lacks k = All (λ e. str_eq e.key k ≡ false)

-- The keys are distinct, and none is in the map that the entries are assigned to.
abbrev pub Distinct : List Entry → Type 0
Distinct [] = Unit
Distinct (e ∷ es) = Lacks e.key es × Distinct es

-- The value that a statement gives its key.
abbrev pub given : Entry → Option Value
given e = if e.valid then some e.value else none

assign_if-ne :
    (j : String) (e : Entry) (m : Fields)
    → str_eq e.key j ≡ false
    → lookup j (if e.valid then assign e.key e.value m else m) ≡ lookup j m
assign_if-ne j e m h = ground (arith, lookup-assign e.key j e.value m)

-- Entries with other keys leave the value of a key alone.
pub lookup-assign_valid_ne :
    (j : String) (es : List Entry) (m : Fields)
    → Lacks j es
    → lookup j (assign_valid es m) ≡ lookup j m
unfolding assign_valid
lookup-assign_valid_ne j [] m h = refl
lookup-assign_valid_ne j (e ∷ es) m (h, hs) =
    lookup-assign_valid_ne j es _ hs ∙ assign_if-ne j e m h

abbrev pub Absent : Fields → List Entry → Type 0
Absent m = All (λ e. lookup e.key m ≡ none)

assign_if-Absent :
    (e : Entry) (m : Fields) (es : List Entry)
    → Lacks e.key es
    → Absent m es
    → Absent (if e.valid then assign e.key e.value m else m) es
assign_if-Absent e m [] _ _ = tt
assign_if-Absent e m (d ∷ es) (l, ls) (h, hs) = (
  ground (arith, lookup-assign e.key d.key e.value m, eq_iff e.key d.key, eq_iff d.key e.key),
  assign_if-Absent e m es ls hs,
)

assign_if_self :
    (e : Entry) (m : Fields)
    → lookup e.key m ≡ none
    → lookup e.key (if e.valid then assign e.key e.value m else m) ≡ given e
assign_if_self e m h = ground (arith, lookup-assign e.key e.key e.value m, eq_iff e.key e.key)

-- After the guarded assignments each key has the value that its own statement gives it, and no
-- value where its guard is false.
pub lookup-assign_valid :
    (es : List Entry) (m : Fields)
    → Distinct es
    → Absent m es
    → All (λ e. lookup e.key (assign_valid es m) ≡ given e) es
unfolding assign_valid
lookup-assign_valid [] m d h = tt
lookup-assign_valid (e ∷ es) m (d, ds) (h, hs) =
    let m' = if e.valid then assign e.key e.value m else m in
    (
      lookup-assign_valid_ne e.key es m' d ∙ assign_if_self e m h,
      lookup-assign_valid es m' ds (assign_if-Absent e m es d hs),
    )
