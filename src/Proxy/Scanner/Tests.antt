-- ===== src/Proxy/Scanner/Tests.antt =====
-- Runs of proxy/scanner.go, and its theorems at concrete inputs.
use skillledger.Base.{
  ◌-◌, ◌≤◌, ◌<◌, ◌≡◌, refl, ◌⊎◌, List, [], ◌∷◌, leb, if◌then◌else◌, length, take, drop, Text, codes,
}
use skillledger.Proxy.Scanner.{
  ActionType, allow, block, warn, log, Finding, highest_decision, redact, format_findings,
}
use skillledger.Proxy.Scanner.Decision.{AtMost, Decides, highest_decision-max}
use skillledger.Proxy.Scanner.Redaction.{redact_hides}

abbrev sample : ActionType → Finding
sample a = record {
  scanner = codes "network";
  severity = codes "info";
  description = codes "d";
  pattern = [];
  match_value = [];
  decision = a;
}

abbrev mixed : List Finding
mixed = sample log ∷ sample block ∷ sample warn ∷ []

mixed_blocks : highest_decision mixed ≡ block
unfolding highest_decision
mixed_blocks = refl

redact_key : redact (codes "AKIA1234567890WXYZ") ≡ codes "AKIA****WXYZ"
unfolding redact
redact_key = refl

format_two :
    format_findings (sample log ∷ sample warn ∷ []) ≡ codes "[info] network: d; [info] network: d"
unfolding format_findings
format_two = refl

highest_decision-max_example :
    AtMost (highest_decision mixed) mixed
    × ((highest_decision mixed ≡ allow) ⊎ Decides (highest_decision mixed) mixed)
highest_decision-max_example = highest_decision-max mixed

abbrev key_a : Text
key_a = codes "AKIA1234567890WXYZ"

abbrev key_b : Text
key_b = codes "AKIA-other-WXYZ"

redact_hides_example :
    (length (redact key_a) ≡ (if leb (length key_a) 8 then 4 else 12))
    × (length key_a ≤ 8 → length key_b ≤ 8 → redact key_a ≡ redact key_b)
    × (8 < length key_a
        → 8 < length key_b
        → take 4 key_a ≡ take 4 key_b
        → drop (length key_a - 4) key_a ≡ drop (length key_b - 4) key_b
        → redact key_a ≡ redact key_b)
redact_hides_example = redact_hides key_a key_b
