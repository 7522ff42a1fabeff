-- ===== src/Proxy/TwoPass/Injection.antt =====
-- proxy/injection_scanner.go and proxy/injection_allowlist.go, with InjectionPattern of
-- proxy/injection_patterns.go.
use skillledger.Base.{
  ℕ, ◌+◌, ◌-◌, min, Bool, false, ◌&&◌, ◌||◌, not, Option, none, some, List, [], ◌∷◌, ◌++◌, map, ltb,
  leb, nat_beq, if◌then◌else◌, length, take, drop, Text, codes, text_eq, Outcome, ok, err, ◌>>=◌,
  wrap,
}
use skillledger.Proxy.Scanner.{warn, Finding, Request}
use skillledger.Proxy.Pinning.{pin_key}
use skillledger.Proxy.JsonRpc.{JsonRpcMessage, McpContent, extract_text_from_tool_result}
use skillledger.Proxy.TwoPass.{scan_bytes, deduplicate_findings, mem_text}

-- InjectionPattern; Regex.FindIndex gives the start and the end of the match, if any, and
-- `confidence` is the number as it is printed.
pub record InjectionPattern : Type 0 where
  pub name : Text
  pub severity : Text
  pub confidence : Text
  pub find_index : Text → Option (ℕ × ℕ)

-- What the classifier returns: whether the score is above the threshold, and its printed form.
pub record Score : Type 0 where
  pub above_threshold : Bool
  pub shown : Text

pub record InjectionAllowlist : Type 0 where
  pub entries : List Text

pub record AllowlistEntry : Type 0 where
  pub server_id : Text
  pub tool_name : Text

unfoldable pub allowed_keys : List AllowlistEntry → List Text
unfolding pin_key
allowed_keys [] = []
allowed_keys (e ∷ es) = pin_key e.server_id e.tool_name ∷ allowed_keys es

-- LoadInjectionAllowlist; the file is absent (`none`), or its reading gives an error or bytes.
unfoldable pub load_injection_allowlist :
    (Text → Outcome (List AllowlistEntry)) → Option (Outcome Text) → Outcome InjectionAllowlist
unfolding allowed_keys
load_injection_allowlist unmarshal none = ok (record { entries = [] })
load_injection_allowlist unmarshal (some read) = do
  bytes ← wrap (codes "read injection allowlist") read
  es ← wrap (codes "parse injection allowlist") (unmarshal bytes)
  ok (record { entries = allowed_keys es })

-- IsAllowed, with the check for a nil allowlist.
unfoldable pub is_allowed : Option InjectionAllowlist → Text → Text → Bool
unfolding mem_text pin_key
is_allowed none server tool = false
is_allowed (some a) server tool = mem_text (pin_key server tool) a.entries

pub record InjectionScanner : Type 0 where
  pub matcher : Text → List ℕ
  pub patterns : List InjectionPattern
  pub allowlist : Option InjectionAllowlist
  pub deep_scan : Bool
  pub classifier : Option (Text → Outcome Score)
  pub base64_blobs : Text → List Text
  pub decode_std : Text → Outcome Text
  pub decode_url : Text → Outcome Text
  pub unmarshal_content : Text → Outcome (List McpContent)

abbrev single_line : Text → Text
single_line = map (λ c. if nat_beq c 10 || nat_beq c 13 then 32 else c)

-- contextSnippet; the start is cut off at 0.
unfoldable pub context_snippet : Text → ℕ → ℕ → Text
context_snippet [] start radius = []
context_snippet (c ∷ cs) match_start radius =
    let bytes = c ∷ cs in
    let start = match_start - radius in
    let end_ = min (match_start + radius) (length bytes) in
    take 200 (single_line (take (end_ - start) (drop start bytes)))

unfoldable pub confirm_injection : InjectionPattern → Text → Option Finding
unfolding context_snippet
confirm_injection p bytes = elim (p.find_index bytes) [
  | none ↦ none
  | some (start, end_) ↦ some (record {
    scanner = codes "injection";
    severity = p.severity;
    description =
        codes "Prompt injection detected: "
        ++ (p.name
            ++ (codes " (confidence: "
                ++ (p.confidence ++ (codes ") ...context: " ++ context_snippet bytes start 200))));
    pattern = p.name;
    match_value = take 100 (take (end_ - start) (drop start bytes));
    decision = warn;
  })
]

unfoldable pub scan_injections : InjectionScanner → Text → List Finding
unfolding scan_bytes confirm_injection
scan_injections s bytes = scan_bytes (λ p. p.name) confirm_injection s.patterns s.matcher bytes

abbrev pub mark_decoded : Finding → Finding
mark_decoded f = record f { description = f.description ++ codes " (base64-decoded)" }

-- A blob that is valid standard base64, or else URL-safe base64.
unfoldable pub decode_blob : InjectionScanner → Text → Outcome Text
decode_blob s blob = elim (s.decode_std blob) [ ok d ↦ ok d | err e ↦ s.decode_url blob ]

-- The loop over the blobs of scanText.
unfoldable pub scan_blobs : InjectionScanner → List Text → List Finding
unfolding decode_blob scan_injections
scan_blobs s [] = []
scan_blobs s (b ∷ bs) =
    let rest = scan_blobs s bs in
    elim (decode_blob s b) [
      | err e ↦ rest
      | ok decoded ↦
          if leb (length decoded) 50
          then rest
          else map mark_decoded (scan_injections s decoded) ++ rest
    ]

abbrev pub ml_finding : Text → Finding
ml_finding shown = record {
  scanner = codes "injection";
  severity = codes "high";
  description =
      codes "ML classifier detected prompt injection (confidence: " ++ (shown ++ codes ")");
  pattern = codes "ml-classifier";
  match_value = [];
  decision = warn;
}

-- Step 4 of scanText.
unfoldable pub classify_text : InjectionScanner → Text → List Finding → List Finding
classify_text s text found = elim s.classifier [
  | none ↦ []
  | some classify ↦
      if s.deep_scan || nat_beq (length found) 0
      then elim (classify text) [
        | err e ↦ []
        | ok score ↦ if score.above_threshold then ml_finding score.shown ∷ [] else []
      ]
      else []
]

-- scanText
unfoldable pub scan_text : InjectionScanner → Text → Text → Text → List Finding
unfolding is_allowed scan_injections scan_blobs classify_text deduplicate_findings
scan_text s text server tool =
    let skip =
      not (text_eq server []) && not (text_eq tool []) && is_allowed s.allowlist server tool in
    let found = scan_injections s text ++ scan_blobs s (s.base64_blobs text) in
    if skip then [] else deduplicate_findings (found ++ classify_text s text found)

-- Scan
unfoldable pub scan_body : InjectionScanner → Request → Text → List Finding
unfolding scan_text
scan_body s r body = scan_text s body [] []

unfoldable pub scan_all : InjectionScanner → List Text → List Finding
unfolding scan_text
scan_all s [] = []
scan_all s (t ∷ ts) = scan_text s t [] [] ++ scan_all s ts

-- The texts of a result: those of its content, or else the raw JSON if it is long enough.
unfoldable pub texts_of_result : InjectionScanner → Text → List Text
unfolding extract_text_from_tool_result
texts_of_result s result = elim (extract_text_from_tool_result s.unmarshal_content result) [
  | t ∷ ts ↦ t ∷ ts
  | [] ↦ if ltb 50 (length result) then result ∷ [] else []
]

-- ScanMessage
unfoldable pub scan_message : InjectionScanner → JsonRpcMessage → Text → List Finding
unfolding texts_of_result scan_all deduplicate_findings
scan_message s msg direction =
    if not (text_eq direction (codes "response")) then [] else elim msg.result [
      | none ↦ []
      | some result ↦ deduplicate_findings (scan_all s (texts_of_result s result))
    ]
