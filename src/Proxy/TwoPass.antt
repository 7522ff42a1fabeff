-- ===== src/Proxy/TwoPass.antt =====
-- The two-pass scanners: proxy/secret_scanner.go, proxy/injection_scanner.go and
-- proxy/injection_allowlist.go. The Aho-Corasick matcher, regular expressions, base64, the ML
-- classifier, YAML and the order of query values are arguments; the patterns themselves are data.
pub mod Secrets
pub mod Injection
pub mod Unique
mod Tests
use skillledger.Base.{
  ℕ, Bool, false, ◌||◌, Option, none, some, List, [], ◌∷◌, if◌then◌else◌, get_elem?, Text, text_eq,
}
use skillledger.Proxy.Scanner.{Finding}

unfoldable pub mem_text : Text → List Text → Bool
mem_text k [] = false
mem_text k (j ∷ js) = text_eq j k || mem_text k js

-- The key of deduplicateFindings.
unfoldable pub finding_key : Finding → Text
finding_key f = if text_eq f.pattern [] then f.description else f.pattern

unfoldable pub deduplicate_from : List Text → List Finding → List Finding
unfolding mem_text finding_key
deduplicate_from seen [] = []
deduplicate_from seen (f ∷ fs) =
    let skipped = deduplicate_from seen fs in
    let kept = deduplicate_from (finding_key f ∷ seen) fs in
    if mem_text (finding_key f) seen then skipped else f ∷ kept

-- deduplicateFindings
unfoldable pub deduplicate_findings : List Finding → List Finding
unfolding deduplicate_from
deduplicate_findings fs = deduplicate_from [] fs

-- The two passes of both scanBytes: for each hit of the matcher the pattern's name, if it was not
-- seen, is confirmed. `confirm` gives the finding, or `none` where the regular expression has no
-- match.
module _ {P : Type 0} (name : P → Text) (confirm : P → Text → Option Finding) where
  unfoldable pub confirm_hits : List P → Text → List Text → List ℕ → List Finding
  unfolding mem_text
  confirm_hits patterns bytes seen [] = []
  confirm_hits patterns bytes seen (i ∷ hits) =
      let rest = confirm_hits patterns bytes seen hits in
      elim (get_elem? patterns i) [
        | none ↦ rest
        | some p ↦ if mem_text (name p) seen then rest else elim (confirm p bytes) [
          | none ↦ rest
          | some f ↦ f ∷ confirm_hits patterns bytes (name p ∷ seen) hits
        ]
      ]

  -- scanBytes
  unfoldable pub scan_bytes : List P → (Text → List ℕ) → Text → List Finding
  unfolding confirm_hits
  scan_bytes patterns matcher [] = []
  scan_bytes patterns matcher (c ∷ cs) = confirm_hits patterns (c ∷ cs) [] (matcher (c ∷ cs))
