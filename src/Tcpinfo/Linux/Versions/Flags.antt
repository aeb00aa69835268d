-- ===== src/Tcpinfo/Linux/Versions/Flags.antt =====
-- pkg/tcpinfo/init_linux.go: the flags that `init` sets, row by row of the table.
use mathlib.Core.Path.{subst}
use sockstats.Common.{
  ℕ, ◌≡◌, refl, sym, ◌∙◌, true, false, List, [], ◌∷◌, All, All-map, arith, Result, ◌==◌, Bool-cases,
  inl, inr,
}
use sockstats.Common.Text.{Text}
use sockstats.Kernel.Version.Order.{compare_kernel_version-trans}
use sockstats.Kernel.Version.{VersionInfo, compare_kernel_version}
use sockstats.Tcpinfo.Linux.Versions.{
  Cells, VersionedStructSize, tcp_info_sizes, Globals, write, at_least, set_flags, adapt_from,
  effective_version, adapt_to_kernel_version,
}

pub at_least_trans :
    (a b c : VersionInfo) → at_least a b ≡ true → at_least b c ≡ true → at_least a c ≡ true
at_least_trans a b c h k =
    ground (arith, compare_kernel_version-trans a b c (ground arith) (ground arith))

-- No row has this cell.
abbrev Avoids : ℕ → List VersionedStructSize → Type 0
Avoids c = All (λ e. (e.cell == c) ≡ false)

-- The rows fall in version, and each has a cell of its own.
abbrev pub Falls : List VersionedStructSize → Type 0
Falls [] = Unit
Falls (e ∷ below) =
    All (λ d. at_least e.version d.version ≡ true) below × Avoids e.cell below × Falls below

set_flags-ne :
    (es : List VersionedStructSize) (c : ℕ) (s : Cells) → Avoids c es → set_flags es s c ≡ s c
unfolding set_flags
set_flags-ne [] c s h = refl
set_flags-ne (e ∷ es) c s (h, hs) = ground (arith, set_flags-ne es c (write e.cell true s) hs)

set_flags-true :
    (es : List VersionedStructSize) (c : ℕ) (s : Cells) → s c ≡ true → set_flags es s c ≡ true
unfolding set_flags
set_flags-true [] c s h = h
set_flags-true (e ∷ es) c s h = ground (arith, set_flags-true es c (write e.cell true s))

set_flags-All :
    (v : VersionInfo) (es : List VersionedStructSize) (s : Cells)
    → All (λ d. at_least v d.version ≡ true) es
    → All (λ d. set_flags es s d.cell ≡ at_least v d.version) es
unfolding set_flags
set_flags-All v [] s h = tt
set_flags-All v (e ∷ es) s (h, hs) = (
  set_flags-true es e.cell (write e.cell true s) (ground arith) ∙ sym h,
  set_flags-All v es (write e.cell true s) hs,
)

adapt_from-ne :
    (v : VersionInfo) (es : List VersionedStructSize) (c : ℕ) (g : Globals)
    → Avoids c es
    → (adapt_from v es g).cells c ≡ g.cells c
unfolding adapt_from
adapt_from-ne v [] c g h = refl
adapt_from-ne v (e ∷ es) c g (h, hs) = ground (
  arith,
  set_flags-ne (e ∷ es) c g.cells (h, hs),
  adapt_from-ne v es c (record g { cells = write e.cell false g.cells }) hs,
)

adapt_from-newer :
    (v : VersionInfo) (e : VersionedStructSize) (es : List VersionedStructSize) (g : Globals)
    → at_least v e.version ≡ true
    → adapt_from v (e ∷ es) g
      ≡ record { size_of_raw_tcp_info = e.size; cells = set_flags (e ∷ es) g.cells }
unfolding adapt_from
adapt_from-newer v e es g h = rw h

adapt_from-older :
    (v : VersionInfo) (e : VersionedStructSize) (es : List VersionedStructSize) (g : Globals)
    → at_least v e.version ≡ false
    → adapt_from v (e ∷ es) g ≡ adapt_from v es (record g { cells = write e.cell false g.cells })
unfolding adapt_from
adapt_from-older v e es g h = rw h

-- Each cell of the rows holds the comparison with its row.
abbrev pub Told : VersionInfo → List VersionedStructSize → Globals → Type 0
Told v es g = All (λ d. g.cells d.cell ≡ at_least v d.version) es

-- The walk sets each cell to the comparison with its own row, whatever was in the cells before.
adapt_from-flags :
    (v : VersionInfo) (es : List VersionedStructSize) (g : Globals)
    → Falls es
    → Told v es (adapt_from v es g)
adapt_from-flags v [] g h = tt
adapt_from-flags v (e ∷ es) g (falls, avoids, rest) =
    let below = record g { cells = write e.cell false g.cells } in
    let ih = adapt_from-flags v es below rest in
    elim (Bool-cases (at_least v e.version)) [
      | inl newer ↦ subst (Told v (e ∷ es)) (sym (adapt_from-newer v e es g newer)) (
          set_flags-All v (e ∷ es) g.cells
            (newer, All-map (λ d. at_least_trans v e.version d.version newer) es falls))
      | inr older ↦
          subst (Told v (e ∷ es)) (sym (adapt_from-older v e es g older))
            (adapt_from-ne v es e.cell below avoids ∙ ground arith, ih)
    ]

tcp_info_sizes-Falls : Falls tcp_info_sizes
unfolding compare_kernel_version
tcp_info_sizes-Falls = ground arith

-- After `adaptToKernelVersion` each of the thirteen flags tells whether the kernel's version is at
-- least the version of its row of the table, whatever the flags were before; where the version
-- cannot be had it is taken to be 2.6.2.
pub adapt_to_kernel_version-flags :
    (r : Result Text VersionInfo) (g : Globals)
    → Told (effective_version r) tcp_info_sizes (adapt_to_kernel_version r g)
unfolding adapt_to_kernel_version
adapt_to_kernel_version-flags r g =
    adapt_from-flags (effective_version r) tcp_info_sizes g tcp_info_sizes-Falls
