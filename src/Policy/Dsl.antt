-- ===== src/Policy/Dsl.antt =====
-- cli/internal/policy/dsl: the policy language of YAML files, its parser and its compiler to Rego.
-- The YAML and JSON decoders, the verbs %q and %d of fmt and the order of a map are arguments. The
-- space that TrimSpace cuts off is ASCII's.
pub mod Compile
pub mod Runtime
pub mod Operators
pub mod Safe
mod Tests
use skillledger.Base.{
  ℕ, ◌+◌, Bool, false, ◌&&◌, ◌||◌, not, Option, none, some, List, [], ◌∷◌, ◌++◌, nat_beq,
  if◌then◌else◌, length, Text, codes, text_eq, Outcome, ok, err, ◌>>=◌, ◌>>◌, wrap, Dict,
  trim_space,
}

pub record Rule : Type 0 where
  pub deny : Text
  pub warn : Text
  pub except : List Text
  pub message : Text

pub record RuntimeRuleSet : Type 0 where
  pub block : List Text
  pub warn : List Text
  pub log : List Text

pub record AllowlistEntry : Type 0 where
  pub cert_identity : Text
  pub issuer : Text

pub record PublisherConfig : Type 0 where
  pub allowlist : List AllowlistEntry

-- Policy; a version that is no natural number counts as an error of the decoder.
pub record Policy : Type 0 where
  pub version : ℕ
  pub rules : Dict (List Rule)
  pub publishers : PublisherConfig
  pub runtime_rules : Option RuntimeRuleSet

-- The verbs %q and %d.
pub record Fmt : Type 0 where
  pub quote : Text → Text
  pub decimal : ℕ → Text

-- strings.ContainsAny(s, "\\\n\r\t\"")
unfoldable pub disallowed : Text → Bool
disallowed [] = false
disallowed (c ∷ cs) =
    (nat_beq c 92 || nat_beq c 10 || nat_beq c 13 || nat_beq c 9 || nat_beq c 34) || disallowed cs

-- What comes before the first occurrence of a byte, and what comes after it.
unfoldable pub cut_at : ℕ → Text → Option (Text × Text)
cut_at sep [] = none
cut_at sep (c ∷ cs) =
    let rest = cut_at sep cs in
    if nat_beq c sep
    then some ([], cs)
    else elim rest [ none ↦ none | some (before, after) ↦ some (c ∷ before, after) ]

abbrev pub at_index : Fmt → Text → ℕ → Text → Text
at_index fmt name i message = name ++ (codes "[" ++ (fmt.decimal i ++ (codes "]: " ++ message)))

-- The checks of one rule of Parse.
unfoldable pub check_rule : Fmt → Text → ℕ → Rule → Outcome (Unit {0})
check_rule fmt category i r =
    let has_deny = not (text_eq r.deny []) in
    let has_warn = not (text_eq r.warn []) in
    if not (has_deny && not has_warn || not has_deny && has_warn)
    then err (
        at_index fmt (codes "rule " ++ category) i
          (codes "exactly one of deny or warn must be set"))
    else if text_eq r.message []
    then err (at_index fmt (codes "rule " ++ category) i (codes "message field is required"))
    else ok tt

unfoldable pub check_rules : Fmt → Text → ℕ → List Rule → Outcome (Unit {0})
unfolding check_rule
check_rules fmt category i [] = ok tt
check_rules fmt category i (r ∷ rs) = do
  check_rule fmt category i r
  check_rules fmt category (i + 1) rs

unfoldable pub check_categories : Fmt → Dict (List Rule) → Outcome (Unit {0})
unfolding check_rules
check_categories fmt [] = ok tt
check_categories fmt ((category, rs) ∷ rest) = do
  check_rules fmt category 0 rs
  check_categories fmt rest

unfoldable pub check_exprs : Fmt → Text → ℕ → List Text → Outcome (Unit {0})
unfolding trim_space
check_exprs fmt kind i [] = ok tt
check_exprs fmt kind i (e ∷ es) =
    let rest = check_exprs fmt kind (i + 1) es in
    if text_eq (trim_space e) []
    then err (at_index fmt (codes "runtime-rules." ++ kind) i (codes "empty expression"))
    else rest

unfoldable pub check_runtime_rules : Fmt → Option RuntimeRuleSet → Outcome (Unit {0})
unfolding check_exprs
check_runtime_rules fmt none = ok tt
check_runtime_rules fmt (some rules) = do
  check_exprs fmt (codes "block") 0 rules.block
  check_exprs fmt (codes "warn") 0 rules.warn
  check_exprs fmt (codes "log") 0 rules.log

unfoldable pub check_policy : Fmt → Policy → Outcome Policy
unfolding check_categories check_runtime_rules
check_policy fmt p =
    if not (nat_beq p.version 1)
    then err
        (codes "unsupported policy version: " ++ (fmt.decimal p.version ++ codes " (expected 1)"))
    else if nat_beq (length p.rules) 0
    then err (codes "policy must contain at least one rule")
    else (do check_categories fmt p.rules; check_runtime_rules fmt p.runtime_rules; ok p)

-- Parse
unfoldable pub parse : Fmt → (Text → Outcome Policy) → Text → Outcome Policy
unfolding check_policy
parse fmt unmarshal [] = err (codes "policy data is empty")
parse fmt unmarshal (c ∷ cs) = do
  p ← wrap (codes "YAML parse error") (unmarshal (c ∷ cs))
  check_policy fmt p
