-- ===== src/OperatingSystem/Lines.antt =====
-- What pkg/os uses of bufio.
use sockstats.Common.Text.{Text}
use sockstats.Common.{ℕ, List, [], ◌∷◌, ltb, ◌==◌, length, if◌then◌else◌}

-- The lines that a `bufio.Scanner` gives: parted at the line feeds, without an empty last one; a
-- line that is longer than its buffer ends the scan; and one carriage return is taken off the end.
unfoldable pub max_line : ℕ
max_line = 65536

abbrev pub drop_cr : Text → Text
drop_cr [] = []
drop_cr (c ∷ []) = if c == b'\r' then [] else c ∷ []
drop_cr (c ∷ d ∷ s) = c ∷ drop_cr (d ∷ s)

unfoldable pub scan_lines : List Text → List Text
unfolding max_line
scan_lines [] = []
scan_lines ([] ∷ []) = []
scan_lines (l ∷ ls) =
    let rest = scan_lines ls in if ltb (length l) max_line then drop_cr l ∷ rest else []
