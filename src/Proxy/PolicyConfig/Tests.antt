-- ===== src/Proxy/PolicyConfig/Tests.antt =====
-- Runs of proxy/policy_config.go, and its theorems at concrete inputs.
use skillledger.Base.{
  ◌≡◌, refl, Bool, true, false, some, [], ◌∷◌, All, Text, codes, text_eq, to_lower, Outcome, ok,
  err, lookup, put,
}
use skillledger.Proxy.Scanner.{block, warn}
use skillledger.Proxy.PolicyConfig.{
  SkillMapping, PolicyConfig, default_policy_config, one_of, valid_presets, valid_actions,
  load_policy_config, merge_policy_configs, provenance_preset_for, action_for,
}
use skillledger.Proxy.PolicyConfig.Loaded.{IsUsable, load_policy_config-valid}

abbrev mapping : SkillMapping
mapping = record { pattern = codes "*.example.com"; skill_id = codes "s" }

abbrev custom : PolicyConfig
custom = record {
  preset = codes "strict";
  response_actions = (codes "capability_violation", codes "Warn") ∷ [];
  provenance = (codes "verified", codes "permissive") ∷ [];
  skill_mappings = mapping ∷ [];
}

abbrev matches : Text → Text → Outcome Bool
matches pattern host = ok false

loads : load_policy_config (λ yaml. ok custom) matches [] ≡ ok custom
unfolding load_policy_config text_eq one_of to_lower
loads = refl

refuses_allow :
    load_policy_config
      (λ yaml. ok (record custom { response_actions = (codes "x", codes "allow") ∷ [] }))
      matches
      []
    ≡ err (
        codes "invalid response action allow for violation type x: must be one of block, warn, log")
unfolding load_policy_config text_eq one_of to_lower
refuses_allow = refl

default_is_moderate : default_policy_config.preset ≡ codes "moderate"
unfolding default_policy_config
default_is_moderate = refl

unknown_blocks : action_for default_policy_config (codes "new_kind") ≡ block
unfolding action_for lookup default_policy_config put text_eq
unknown_blocks = refl

overridden :
    action_for (merge_policy_configs default_policy_config custom) (codes "capability_violation")
    ≡ warn
unfolding action_for lookup merge_policy_configs put default_policy_config text_eq to_lower
overridden = refl

load_policy_config-valid_example :
    ((violation action : Text)
      → lookup violation custom.response_actions ≡ some action
      → one_of (to_lower action) valid_actions ≡ true)
    × ((tier : Text) → one_of (provenance_preset_for custom tier) valid_presets ≡ true)
    × All (IsUsable matches) custom.skill_mappings
load_policy_config-valid_example =
    load_policy_config-valid (λ yaml. ok custom) matches [] custom loads
