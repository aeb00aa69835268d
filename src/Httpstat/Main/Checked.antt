-- ===== src/Httpstat/Main/Checked.antt =====
-- cmd/httpstat/main.go: what `main` has checked when it exits, stops or visits a URL.
use sockstats.Common.Int.{pos, negsuc}
use sockstats.Common.Text.{Text, codes, has_suffix}
use sockstats.Common.{◌≡◌, ◌⊎◌, true, false, List, [], ◌∷◌, Result, ok, err, length}
use sockstats.Httpstat.Main.{Flags, Run, exits, stops, visits}
use sockstats.Httpstat.Request.{Url, with_slashes}

-- A method that sends a body, and no body for it.
abbrev pub MissesBody : Flags → Type 0
MissesBody flags =
    ((flags.http_method ≡ codes "POST") ⊎ (flags.http_method ≡ codes "PUT"))
    × (flags.post_body ≡ [])

-- A parsed URL with its scheme, or the one of its port where it has none.
abbrev pub IsOf : Url → Url → Type 0
IsOf parsed url =
    (url.host ≡ parsed.host)
    × (url.path ≡ parsed.path)
    × (((¬ parsed.scheme ≡ []) × (url.scheme ≡ parsed.scheme))
        ⊎ ((parsed.scheme ≡ [])
            × (has_suffix parsed.host (codes ":80") ≡ true)
            × (url.scheme ≡ codes "http"))
        ⊎ ((parsed.scheme ≡ [])
            × (has_suffix parsed.host (codes ":80") ≡ false)
            × (url.scheme ≡ codes "https")))

-- The tests that `main` makes before it looks at the arguments.
abbrev pub Passes : Flags → Type 0
Passes flags = (flags.show_version ≡ false) × ((flags.four_only ≡ false) ⊎ (flags.six_only ≡ false))

-- What holds of a run of `main`, by its outcome.
abbrev pub IsChecked : (Text → Result Text Url) → Flags → List Text → Run → Type 0
IsChecked parse flags args (exits code) =
    ((code ≡ pos 0) × (flags.show_version ≡ true))
    ⊎ ((code ≡ negsuc 0)
        × (flags.show_version ≡ false)
        × (flags.four_only ≡ true)
        × (flags.six_only ≡ true))
    ⊎ ((code ≡ pos 2) × Passes flags × (¬ length args ≡ 1))
IsChecked parse flags args (stops message) =
    Passes flags
    × ((arg : Text) × (args ≡ arg ∷ [])
        × (MissesBody flags ⊎ ((¬ MissesBody flags) × (parse (with_slashes arg) ≡ err message))))
IsChecked parse flags args (visits method url) =
    Passes flags
    × ((arg : Text) × (args ≡ arg ∷ [])
        × (¬ MissesBody flags)
        × ((parsed : Url) × (parse (with_slashes arg) ≡ ok parsed) × IsOf parsed url)
        × (((flags.only_header ≡ true) × (method ≡ codes "HEAD"))
            ⊎ ((flags.only_header ≡ false) × (method ≡ flags.http_method))))
