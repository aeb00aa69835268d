-- ===== src/OperatingSystem/Release.antt =====
-- pkg/os/operatingsystem_linux.go: the values of os-release. The files are what `os.Open` gives.
use sockstats.Common.Text.{Text, codes}
use sockstats.Common.{
  ℕ, ◌≡◌, ◌≢◌, refl, ap, ◌∙◌, Bool, ◌||◌, Option, none, some, List, [], ◌∷◌, ◌++◌, ◌==◌, arith,
  Result, ok, err, picks, last_or, fold_items, or_old, fold_items-or_old,
}
use sockstats.Common.Text.{split, parts, cut_prefix, trim}
use sockstats.OperatingSystem.Lines.{scan_lines}

-- Why a file cannot be opened: it does not exist, or anything else.
pub data OpenError : Type 0 where
  not_exist : OpenError
  failed : Text → OpenError

-- The characters of the cut set "\"' ".
abbrev pub in_cutset : ℕ → Bool
in_cutset c = c == b'"' || c == b'\'' || c == b' '

-- One line: the value so far, or the line's own.
unfoldable pub read_line : Text → Text → Text → Text
unfolding trim cut_prefix
read_line key line value = elim (cut_prefix line (key ++ b'=' ∷ [])) [
  | none ↦ value
  | some after ↦ trim in_cutset after
]

-- The loop over the lines.
unfoldable pub read_lines : Text → List Text → Text → Text
unfolding read_line
read_lines key [] value = value
read_lines key (line ∷ lines) value = read_lines key lines (read_line key line value)

-- `getValueFromOsRelease`, from what opening the two files gives.
unfoldable pub get_value_from_os_release :
    Text → Result OpenError Text → Result OpenError Text → Result OpenError Text
unfolding read_lines scan_lines split
get_value_from_os_release key etc alt = elim etc [
  | ok file ↦ ok (read_lines key (scan_lines (parts b'\n' file)) [])
  | err not_exist ↦ elim alt [
    | err e ↦ err e
    | ok file ↦ ok (read_lines key (scan_lines (parts b'\n' file)) [])
  ]
  | err (failed e) ↦ err (failed e)
]

unfoldable pub get_operating_system :
    Result OpenError Text → Result OpenError Text → Result OpenError Text
get_operating_system etc alt = elim (get_value_from_os_release (codes "PRETTY_NAME") etc alt) [
  | err e ↦ err e
  | ok [] ↦ ok (codes "Linux")
  | ok (c ∷ name) ↦ ok (c ∷ name)
]

unfoldable pub get_operating_system_version :
    Result OpenError Text → Result OpenError Text → Result OpenError Text
get_operating_system_version = get_value_from_os_release (codes "VERSION_ID")

abbrev pub trimmed : Option Text → Option Text
trimmed none = none
trimmed (some after) = some (trim in_cutset after)

-- The value that a line gives a key, if it does.
abbrev pub assigned : Text → Text → Option Text
assigned key line = trimmed (cut_prefix line (key ++ b'=' ∷ []))

-- The file that is read.
abbrev pub file_of : Result OpenError Text → Result OpenError Text → Result OpenError Text
file_of (ok file) alt = ok file
file_of (err not_exist) alt = alt
file_of (err (failed e)) alt = err (failed e)

-- The value of a key in a file: that of the last line that gives it one.
abbrev pub found : Text → Result OpenError Text → Result OpenError Text
found key (err e) = err e
found key (ok file) = ok (last_or [] (picks (assigned key) (scan_lines (parts b'\n' file))))

read_line-assigned :
    (key line value : Text) → read_line key line value ≡ or_old (assigned key line) value
unfolding read_line
read_line-assigned key line value = ground arith

read_lines-fold :
    (key : Text) (lines : List Text) (value : Text)
    → read_lines key lines value ≡ fold_items (λ line. or_old (assigned key line)) lines value
unfolding read_lines
read_lines-fold key [] value = refl
read_lines-fold key (line ∷ lines) value =
    rw (read_line-assigned key line value) (read_lines-fold key lines _)

read_lines-last :
    (key file : Text)
    → read_lines key (scan_lines (parts b'\n' file)) []
      ≡ last_or [] (picks (assigned key) (scan_lines (parts b'\n' file)))
read_lines-last key file =
    read_lines-fold key (scan_lines (parts b'\n' file)) []
    ∙ fold_items-or_old (assigned key) (scan_lines (parts b'\n' file)) []

-- The value of a key is the one that the last line with `key=` at its front gives it, among the
-- lines that the scanner gives, and empty if there is none; the second file is read exactly if
-- the first does not exist, and other errors are returned.
pub get_value_from_os_release-last :
    (key : Text) (etc alt : Result OpenError Text)
    → get_value_from_os_release key etc alt ≡ found key (file_of etc alt)
unfolding get_value_from_os_release
get_value_from_os_release-last key (ok file) alt = ap ok (read_lines-last key file)
get_value_from_os_release-last key (err not_exist) (ok file) = ap ok (read_lines-last key file)
get_value_from_os_release-last key (err not_exist) (err e) = refl
get_value_from_os_release-last key (err (failed e)) alt = refl

-- The name of the system is never empty.
pub get_operating_system-nonempty :
    (etc alt : Result OpenError Text) → get_operating_system etc alt ≢ ok []
unfolding get_operating_system
get_operating_system-nonempty etc alt =
    go (get_value_from_os_release (codes "PRETTY_NAME") etc alt) refl
  where
    go :
        (r : Result OpenError Text)
        → get_value_from_os_release (codes "PRETTY_NAME") etc alt ≡ r
        → get_operating_system etc alt ≢ ok []
    go (err e) h k = ground (arith, h, k)
    go (ok []) h k = ground (arith, h, k)
    go (ok (c ∷ name)) h k = ground (arith, h, k)
