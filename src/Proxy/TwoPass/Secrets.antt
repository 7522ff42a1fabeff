-- ===== src/Proxy/TwoPass/Secrets.antt =====
-- proxy/secret_scanner.go, with SecretPattern of proxy/patterns.go.
use skillledger.Base.{
  ℕ, Option, none, some, List, [], ◌∷◌, ◌++◌, if◌then◌else◌, Text, codes, text_eq, Dict, lookup,
}
use skillledger.Proxy.Scanner.{warn, Finding, Request, redact}
use skillledger.Proxy.TwoPass.{scan_bytes, deduplicate_findings}

-- SecretPattern; Regex.Find gives the match, if any.
pub record SecretPattern : Type 0 where
  pub name : Text
  pub provider : Text
  pub severity : Text
  pub find : Text → Option Text

pub record SecretScanner : Type 0 where
  pub matcher : Text → List ℕ
  pub patterns : List SecretPattern
  pub query_values : Request → List Text

unfoldable pub confirm_secret : SecretPattern → Text → Option Finding
unfolding redact
confirm_secret p bytes = elim (p.find bytes) [
  | none ↦ none
  | some match_ ↦ some (record {
    scanner = codes "secret";
    severity = p.severity;
    description =
        codes "Detected " ++ (p.provider ++ (codes " credential (" ++ (p.name ++ codes ")")));
    pattern = p.name;
    match_value = redact match_;
    decision = warn;
  })
]

unfoldable pub scan_secrets : SecretScanner → Text → List Finding
unfolding scan_bytes confirm_secret
scan_secrets s bytes = scan_bytes (λ p. p.name) confirm_secret s.patterns s.matcher bytes

unfoldable pub scan_texts : SecretScanner → List Text → List Finding
unfolding scan_secrets
scan_texts s [] = []
scan_texts s (t ∷ ts) = scan_secrets s t ++ scan_texts s ts

-- Authorization, Cookie and X-API-Key, in canonical form.
abbrev sensitive_headers : List Text
sensitive_headers = codes "Authorization" ∷ codes "Cookie" ∷ codes "X-Api-Key" ∷ []

unfoldable pub header_values : Dict Text → List Text → List Text
header_values header [] = []
header_values header (k ∷ ks) =
    let rest = header_values header ks in
    elim (lookup k header) [ none ↦ rest | some v ↦ if text_eq v [] then rest else v ∷ rest ]

-- Scan
unfoldable pub scan : SecretScanner → Request → Text → List Finding
unfolding scan_texts header_values deduplicate_findings
scan s r body = deduplicate_findings (
    scan_secrets s body
    ++ (scan_texts s (header_values r.header sensitive_headers)
        ++ (scan_texts s (s.query_values r)
            ++ (if text_eq r.path [] then [] else scan_secrets s r.path))))
