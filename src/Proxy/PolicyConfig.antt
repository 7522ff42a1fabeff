-- ===== src/Proxy/PolicyConfig.antt =====
-- proxy/policy_config.go: which violation gets which response. A nil map is an empty one. Ranges over
-- a map run from its last entry to its first; the order shows only in which error is reported.
pub mod Merge
pub mod Loaded
mod Tests
use skillledger.Base.{
  Bool, false, ◌&&◌, ◌||◌, not, none, some, List, [], ◌∷◌, ◌++◌, if◌then◌else◌, Text, codes,
  text_eq, to_lower, Outcome, ok, err, ◌>>=◌, ◌>>◌, wrap, Dict, lookup, put,
}
use skillledger.Proxy.Scanner.{ActionType, block, warn, log}

pub record SkillMapping : Type 0 where
  pub pattern : Text
  pub skill_id : Text

pub record PolicyConfig : Type 0 where
  pub preset : Text
  pub response_actions : Dict Text
  pub provenance : Dict Text
  pub skill_mappings : List SkillMapping

unfoldable pub default_response_actions : Dict Text
default_response_actions =
    (codes "secret_exfil", codes "warn")
    ∷ (codes "ioc_match", codes "block")
    ∷ (codes "undeclared_destination", codes "warn")
    ∷ (codes "undeclared_tool", codes "block")
    ∷ (codes "capability_violation", codes "block")
    ∷ (codes "dns_exfil", codes "warn")
    ∷ (codes "slow_drip", codes "log")
    ∷ (codes "pin_change_midsession", codes "block")
    ∷ (codes "pin_change_between", codes "warn")
    ∷ (codes "prompt_injection", codes "warn")
    ∷ []

-- A range over `extra` that writes each entry.
unfoldable pub put_all : Dict Text → Dict Text → Dict Text
put_all [] m = m
put_all ((k, v) ∷ extra) m = put k v (put_all extra m)

-- DefaultPolicyConfig
unfoldable pub default_policy_config : PolicyConfig
unfolding put_all default_response_actions
default_policy_config = record {
  preset = codes "moderate";
  response_actions = put_all default_response_actions [];
  provenance = [];
  skill_mappings = [];
}

unfoldable pub one_of : Text → List Text → Bool
one_of s [] = false
one_of s (t ∷ ts) = text_eq s t || one_of s ts

abbrev pub valid_presets : List Text
valid_presets = codes "strict" ∷ codes "moderate" ∷ codes "permissive" ∷ codes "block_all" ∷ []

abbrev pub valid_trust_tiers : List Text
valid_trust_tiers = codes "verified" ∷ codes "partial" ∷ codes "unverified" ∷ []

abbrev pub valid_actions : List Text
valid_actions = codes "block" ∷ codes "warn" ∷ codes "log" ∷ []

abbrev pub invalid : {A : Type 0} → Text → Text → Text → Outcome A
invalid what value rest = err (codes "invalid " ++ (what ++ (codes " " ++ (value ++ rest))))

unfoldable pub check_actions : Dict Text → Outcome (Unit {0})
check_actions [] = ok tt
check_actions ((v, action) ∷ m) =
    let rest = check_actions m in
    if one_of (to_lower action) valid_actions
    then rest
    else invalid (codes "response action") action
        (codes " for violation type " ++ (v ++ codes ": must be one of block, warn, log"))

unfoldable pub check_provenance : Dict Text → Outcome (Unit {0})
check_provenance [] = ok tt
check_provenance ((tier, preset) ∷ m) =
    let rest = check_provenance m in
    if one_of tier valid_trust_tiers
    then if one_of preset valid_presets
      then rest
      else invalid (codes "provenance preset") preset (
          codes " for tier "
          ++ (tier ++ codes ": must be one of strict, moderate, permissive, block_all"))
    else invalid (codes "trust tier") tier
        (codes " in provenance: must be one of verified, partial, unverified")

-- path.Match is an argument: its error says that the pattern is malformed.
unfoldable pub check_mappings :
    (Text → Text → Outcome Bool) → List SkillMapping → Outcome (Unit {0})
check_mappings path_match [] = ok tt
check_mappings path_match (m ∷ ms) =
    let rest = check_mappings path_match ms in
    if text_eq m.pattern []
    then err (codes "skill_mapping: pattern must not be empty")
    else if text_eq m.skill_id []
    then err (codes "skill_mapping: skill_id must not be empty for pattern " ++ m.pattern)
    else elim (path_match m.pattern []) [
      | err e ↦
          err (codes "skill_mapping: invalid glob pattern " ++ (m.pattern ++ (codes ": " ++ e)))
      | ok _ ↦ rest
    ]

abbrev pub check_preset : Text → Outcome (Unit {0})
check_preset preset =
    if not (text_eq preset []) && not (one_of preset valid_presets)
    then invalid (codes "preset") preset (codes ": must be one of strict, moderate, permissive")
    else ok tt

-- LoadPolicyConfig; yaml.Unmarshal is an argument.
unfoldable pub load_policy_config :
    (Text → Outcome PolicyConfig) → (Text → Text → Outcome Bool) → Text → Outcome PolicyConfig
unfolding check_actions check_provenance check_mappings
load_policy_config unmarshal path_match yaml = do
  pc ← wrap (codes "parsing policy config YAML") (unmarshal yaml)
  check_preset pc.preset
  check_actions pc.response_actions
  check_provenance pc.provenance
  check_mappings path_match pc.skill_mappings
  ok pc

-- MergePolicyConfigs
unfoldable pub merge_policy_configs : PolicyConfig → PolicyConfig → PolicyConfig
unfolding put_all
merge_policy_configs base override = record {
  preset = if text_eq override.preset [] then base.preset else override.preset;
  response_actions = put_all override.response_actions (put_all base.response_actions []);
  provenance = put_all override.provenance (put_all base.provenance []);
  skill_mappings = base.skill_mappings ++ override.skill_mappings;
}

abbrev default_preset_for : Text → Text
default_preset_for tier =
    if text_eq tier (codes "verified") then codes "moderate" else codes "strict"

-- ProvenancePresetFor
unfoldable pub provenance_preset_for : PolicyConfig → Text → Text
provenance_preset_for pc tier = elim (lookup tier pc.provenance) [
  | some preset ↦ preset
  | none ↦ default_preset_for tier
]

-- The switch of ActionFor; what it does not name is blocked.
unfoldable pub parse_action : Text → ActionType
parse_action action =
    if text_eq (to_lower action) (codes "warn")
    then warn
    else if text_eq (to_lower action) (codes "log")
    then log
    else block

-- ActionFor
unfoldable pub action_for : PolicyConfig → Text → ActionType
unfolding parse_action
action_for pc violation = elim (lookup violation pc.response_actions) [
  | some action ↦ parse_action action
  | none ↦ block
]
