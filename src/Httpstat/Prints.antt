-- ===== src/Httpstat/Prints.antt =====
-- cmd/httpstat/main.go: all that a visit prints from the response on, where colours are off.
use sockstats.Common.Int.{ℤ}
use sockstats.Common.Text.{Text}
use sockstats.Common.{◌≡◌, ap, Option, none, some, List, [], ◌++◌}
use sockstats.Conn.Platform.{Platform}
use sockstats.Httpstat.Network.Printed.{Tells, diagnose-Tells}
use sockstats.Httpstat.Network.{Net, Event, run, Shown, diagnose, Printer, shown_prints}
use sockstats.Httpstat.Output.{Answer, answer_prints}
use sockstats.Httpstat.Response.{Disposal}
use sockstats.Httpstat.Times.{Times}

abbrev pub report_prints : Printer → Option Shown → List Text
report_prints p none = []
report_prints p (some s) = shown_prints p s

abbrev pub with_report : Printer → List Text → Option (Option Shown) → Option (List Text)
with_report p prints none = none
with_report p prints (some o) = some (prints ++ report_prints p o)

-- `none`: a panic, or a lock that is held.
unfoldable pub visit_prints :
    {P : Platform}
    → (List Text → List Text)
    → Printer
    → Text
    → Answer
    → Disposal
    → Times
    → Option ℤ
    → Net P
    → Option (List Text)
unfolding answer_prints diagnose
visit_prints sort p scheme a body t t7 net =
    with_report p (answer_prints sort scheme a body t t7) (diagnose net)

-- However the connections were used until then, a visit that has an answer prints all of its lines,
-- and then the report on the closed connection that `Tells` describes, if there is one.
visit_prints-Tells :
    {P : Platform} (sort : List Text → List Text) (p : Printer) (scheme : Text) (a : Answer)
    (body : Disposal) (t : Times) (t7 : Option ℤ) (es : List (Event P))
    → (net : Net P) × (o : Option Shown) × (run es ≡ some net)
      × (visit_prints sort p scheme a body t t7 net
          ≡ some (answer_prints sort scheme a body t t7 ++ report_prints p o))
      × Tells es net o
unfolding visit_prints
visit_prints-Tells sort p scheme a body t t7 es =
    let (net, ran, (o, shown, tells)) = diagnose-Tells es in
    (net, o, ran, ap (with_report p (answer_prints sort scheme a body t t7)) shown, tells)
