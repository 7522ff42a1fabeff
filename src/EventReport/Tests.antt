-- ===== src/EventReport/Tests.antt =====
-- Runs of cli/internal/eventreport/report.go.
use skillledger.Base.{◌≡◌, refl, [], ◌∷◌, map, nat_eq, length, replicate, codes, text_eq_inst}
use skillledger.EventReport.{Event, batches}

abbrev event : Event
event = record {
  type = codes "violation";
  ecosystem = codes "mcp";
  skill_id = codes "s";
  rule = codes "r";
  severity = codes "high";
  details = [];
  timestamp = 0;
}

two_hundred_and_one : map length (batches 201 (replicate 201 event)) ≡ 100 ∷ 100 ∷ 1 ∷ []
unfolding batches
two_hundred_and_one = refl

no_events : batches 0 [] ≡ []
unfolding batches
no_events = refl
