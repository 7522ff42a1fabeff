-- ===== src/Proxy/Scanner.antt =====
-- proxy/action.go and proxy/scanner.go: actions, findings, and the pipeline of scanners.
-- The four action strings are a data type; a priority that the Go map lacks does not occur.
pub mod Decision
pub mod Redaction
mod Tests
use skillledger.Base.{
  join, ℕ, ◌-◌, Bool, Option, List, [], ◌∷◌, ◌++◌, map, ltb, leb, if◌then◌else◌, length, take, drop,
  Text, codes, Dict,
}

pub data ActionType : Type 0 where
  allow block warn log : ActionType

pub record Finding : Type 0 where
  pub scanner : Text
  pub severity : Text
  pub description : Text
  pub pattern : Text
  pub match_value : Text
  pub decision : ActionType

-- The part of http.Request that the proxy reads. A header has one value.
pub record Request : Type 0 where
  pub method : Text
  pub host : Text
  pub path : Text
  pub scheme : Text
  pub tls : Bool
  pub header : Dict Text
  pub body : Option Text

-- A scanner may keep state (the entropy tracker does): `S` is the state of all scanners together.
abbrev pub Scanner : Type 0 → Type 0
Scanner S = S → Request → Text → List Finding × S

-- ScanPipeline.Run
unfoldable pub run : {S : Type 0} → List (Scanner S) → S → Request → Text → List Finding × S
run [] s req body = ([], s)
run (scan ∷ scanners) s req body =
    let (found, s') = scan s req body in
    let (rest, s'') = run scanners s' req body in (found ++ rest, s'')

unfoldable pub priority : ActionType → ℕ
priority block = 3
priority warn = 2
priority log = 1
priority allow = 0

-- The body of the loop of HighestDecision.
unfoldable pub raise : ActionType → ActionType → ActionType
unfolding priority
raise highest d = if ltb (priority highest) (priority d) then d else highest

unfoldable pub highest_from : ActionType → List Finding → ActionType
unfolding raise
highest_from highest [] = highest
highest_from highest (f ∷ fs) = highest_from (raise highest f.decision) fs

-- HighestDecision
unfoldable pub highest_decision : List Finding → ActionType
unfolding highest_from
highest_decision fs = highest_from allow fs

abbrev mask : Text
mask = codes "****"

unfoldable pub redact : Text → Text
redact s = if leb (length s) 8 then mask else take 4 s ++ (mask ++ drop (length s - 4) s)

unfoldable pub format_finding : Finding → Text
format_finding f =
    codes "[" ++ (f.severity ++ (codes "] " ++ (f.scanner ++ (codes ": " ++ f.description))))

-- FormatFindings
unfoldable pub format_findings : List Finding → Text
unfolding join format_finding
format_findings [] = codes "no findings"
format_findings (f ∷ fs) = join (codes "; ") (map format_finding (f ∷ fs))
