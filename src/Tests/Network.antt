-- ===== src/Tests/Network.antt =====
-- cmd/httpstat: dialed connections, the client certificate and the table of times.
use sockstats.Common.Int.{pos}
use sockstats.Common.Text.{Text, codes}
use sockstats.Common.{
  ℕ, ◌≡◌, refl, Bool, true, ◌&&◌, ltb, map, Option, none, some, List, [], ◌∷◌, ◌==◌, if◌then◌else◌,
  All, Result, ok, arith, length, picks, last_or,
}
use sockstats.Conn.Methods.{read_of, write_of, close_of}
use sockstats.Httpstat.Headers.Insertion.{insertion_sort-Sorts}
use sockstats.Httpstat.Headers.Sorting.{insertion_sort}
use sockstats.Httpstat.Headers.Unordered.{Listing, lines_of, lines_of-Sorts}
use sockstats.Httpstat.Headers.{header_lines}
use sockstats.Httpstat.Network.Printed.{Tells, diagnose-Tells}
use sockstats.Httpstat.Network.{Net, Dialed, Event, dialed, called, run, Shown, diagnose}
use sockstats.Httpstat.Output.Aligned.{
  https_bars, http_bars, bars, all_among, IsShort, time_prints-aligned,
}
use sockstats.Httpstat.Output.{time_prints}
use sockstats.Httpstat.Times.{Times, millis, sub, http_columns, https_columns}
use sockstats.Httpstat.Tls.Blocks.{Blocks, key_of, cert_of, Shrinks, read_client_cert-Blocks}
use sockstats.Httpstat.Tls.{Block, Decoder, certificates_of, read_client_cert}
use sockstats.Tests.Conn.{platform, probe}
use sockstats.Tests.Httpstat.{values, names, names-AllDiffer}
use mathlib.Core.Quot.{Quot}

abbrev web : Dialed
web = record { is_tcp = true; local_addr = "10.0.0.1:40000"; remote_addr = "10.0.0.2:80" }

-- Two connections: both are read, and the first one is closed.
abbrev two_dialed : List (Event platform)
two_dialed =
    called 0 (close_of (pos 1500) probe none)
    ∷ called 1 (read_of (pos 9) none (pos 1400))
    ∷ called 0 (read_of (pos 5) none (pos 1300))
    ∷ called 0 (write_of (pos 3) none (pos 1200))
    ∷ dialed (ok web) (pos 1100) probe
    ∷ dialed (ok web) (pos 1000) probe
    ∷ []

diagnose-Tells_example :
    (net : Net platform) × (run two_dialed ≡ some net)
    × ((o : Option Shown) × (diagnose net ≡ some o) × Tells two_dialed net o)
diagnose-Tells_example = diagnose-Tells two_dialed

-- A file of three blocks, each of one character, with the certificate of an authority behind the
-- client's own one.
abbrev pub decode : Decoder
decode [] = none
decode (c ∷ bytes) =
    if c == b'k'
    then some (record { block_type = codes "RSA PRIVATE KEY"; encoded = codes "key" }, bytes)
    else some (record { block_type = codes "CERTIFICATE"; encoded = c ∷ [] }, bytes)

pub decode-Shrinks : Shrinks decode
decode-Shrinks [] rest block h = ground arith
decode-Shrinks (c ∷ bytes) rest block h = ground arith

abbrev pub file : Text → Result Text Text
file name = ok (codes "ckd")

abbrev pub pair : Text → Text → Result Text (Text × Text)
pair cert key = ok (cert, key)

read_client_cert-Blocks_example :
    (blocks : List Block) × Blocks decode (codes "ckd") blocks
    × (read_client_cert 4 file decode pair (codes "a.pem")
        ≡ some (
            certificates_of
              (pair (last_or [] (picks cert_of blocks)) (last_or [] (picks key_of blocks)))))
read_client_cert-Blocks_example =
    read_client_cert-Blocks 4 file decode pair b'a' (codes ".pem") (codes "ckd") decode-Shrinks refl
      (omega arith)

-- A request that takes 75 ms.
abbrev timed : Times
timed = record {
  t0 = some (pos 1000000);
  t1 = some (pos 3500000);
  t2 = some (pos 9900000);
  t3 = some (pos 10000000);
  t4 = some (pos 60000000);
  t5 = some (pos 10000000);
  t6 = some (pos 19000000);
}

abbrev all_short : List ℕ → Bool
all_short [] = true
all_short (n ∷ ns) = ltb n 10000000 && all_short ns

all_short-IsShort : (ns : List ℕ) → all_short ns ≡ true → All IsShort (map pos ns)
all_short-IsShort [] h = tt
all_short-IsShort (n ∷ ns) h = ((n, refl, ground arith), all_short-IsShort ns (ground arith))

-- Its times in milliseconds are short.
https-IsShort : All IsShort (https_columns timed (some (pos 75000000)))
unfolding https_columns millis sub
https-IsShort = all_short-IsShort (2 ∷ 6 ∷ 9 ∷ 50 ∷ 15 ∷ 2 ∷ 8 ∷ 9 ∷ 59 ∷ 74 ∷ []) refl

http-IsShort : All IsShort (http_columns timed (some (pos 75000000)))
unfolding http_columns millis sub
http-IsShort = all_short-IsShort (2 ∷ 6 ∷ 50 ∷ 15 ∷ 2 ∷ 9 ∷ 59 ∷ 74 ∷ []) refl

time_prints-aligned_example :
    ((text : Text) × (time_prints (codes "https") timed (some (pos 75000000)) ≡ text ∷ [])
      × (all_among (bars 0 text) https_bars ≡ true)
      × (length (bars 0 text) ≡ 19))
    × ((text : Text) × (time_prints (codes "http") timed (some (pos 75000000)) ≡ text ∷ [])
        × (all_among (bars 0 text) http_bars ≡ true)
        × (length (bars 0 text) ≡ 13))
time_prints-aligned_example =
    time_prints-aligned timed (some (pos 75000000)) https-IsShort http-IsShort

abbrev listed : Listing
listed = (names, names-AllDiffer)

lines_of-Sorts_example :
    (lines_of insertion_sort insertion_sort-Sorts values (Quot.mk listed)
      ≡ header_lines insertion_sort values names)
    × (lines_of insertion_sort insertion_sort-Sorts values (Quot.mk listed)
        ≡ lines_of insertion_sort insertion_sort-Sorts values (Quot.mk listed))
lines_of-Sorts_example =
    lines_of-Sorts insertion_sort insertion_sort insertion_sort-Sorts insertion_sort-Sorts values
      listed (Quot.mk listed)
