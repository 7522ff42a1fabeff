-- ===== src/Proxy/Capability/Tests.antt =====
-- Runs of proxy/capability.go, and its theorems at concrete inputs.
use skillledger.Base.{
  Dict, ◌≡◌, refl, false, none, some, List, [], ◌∷◌, map, if◌then◌else◌, Text, codes, text_eq, ok,
  err, lookup,
}
use skillledger.Manifest.{Manifest, no_source}
use skillledger.Rego.{Value, Fields, ResultSet, first_object, get_string, get_field}
use skillledger.Proxy.Scanner.{ActionType, block}
use skillledger.Proxy.Scanner.Decision.{Decides}
use skillledger.Proxy.PolicyConfig.{PolicyConfig, action_for}
use skillledger.Proxy.Capability.{
  RuntimeAction, Query, Opa, RuntimeEvaluator, compile_preset, new_runtime_evaluator,
  resolve_preset, build_runtime_input, evaluate, reload_policy, observe,
}
use skillledger.Proxy.Capability.Closed.{Allows, evaluate_fail_closed}
use skillledger.Proxy.Capability.Presets.{
  Coherent, resolve_preset-eq, new-Coherent, reload_policy-switches, evaluate_all,
}

abbrev answer : Text → ResultSet
answer decision =
    (Value.object (Fields.field (codes "decision") (Value.string decision) Fields.end) ∷ []) ∷ []

-- The query of the strict preset denies everything, that of the permissive one allows everything,
-- and that of the moderate one cannot be evaluated.
abbrev opa : Opa
opa = record {
  runtime_strict = codes "deny";
  runtime_moderate = codes "fail";
  runtime_permissive = codes "allow";
  prepare = λ source modules.
      ok
        (λ input. if text_eq source (codes "fail") then err (codes "eval") else ok (answer source));
}

abbrev manifest : Manifest
manifest = record {
  skill_ledger = 1;
  id = codes "s";
  version = codes "1";
  kind = codes "skill";
  source = no_source;
  capabilities = record { filesystem = []; network = []; secrets = []; tools = [] };
}

abbrev config : Text → PolicyConfig
config preset = record {
  preset = preset;
  response_actions = [];
  provenance = [];
  skill_mappings = [];
}

abbrev query : Text → Query
query source input =
    if text_eq source (codes "fail") then err (codes "eval") else ok (answer source)

abbrev evaluator : RuntimeEvaluator
evaluator = record {
  prepared = query (codes "deny");
  default_preset = codes "strict";
  preset_cache = (codes "strict", query (codes "deny")) ∷ [];
  manifests = (codes "s", manifest) ∷ [];
  config = config (codes "strict");
  extra_modules = [];
  observer = none;
}

built :
    new_runtime_evaluator opa
      (codes "strict")
      ((codes "s", manifest) ∷ [])
      (config (codes "strict"))
      false
      []
    ≡ ok evaluator
unfolding new_runtime_evaluator text_eq
built = refl

abbrev action : RuntimeAction
action = record {
  skill_id = codes "s";
  action_type = codes "http_request";
  destination = codes "example.com";
  method = codes "GET";
  tool_name = [];
  resource = [];
  trust_tier = [];
}

abbrev decisions : Text → List ActionType
decisions preset = map (λ f. f.decision) (evaluate opa action (codes "partial") preset evaluator).0

strict_blocks : decisions [] ≡ block ∷ []
unfolding evaluate lookup text_eq first_object get_field get_string action_for
strict_blocks = refl

failing_blocks : decisions (codes "moderate") ≡ block ∷ []
unfolding evaluate lookup text_eq
failing_blocks = refl

unknown_blocks : decisions (codes "other") ≡ block ∷ []
unfolding evaluate lookup text_eq
unknown_blocks = refl

permissive_allows : decisions (codes "permissive") ≡ []
unfolding evaluate lookup text_eq first_object get_field get_string
permissive_allows = refl

coherent : Coherent opa evaluator
coherent =
    new-Coherent opa (codes "strict") ((codes "s", manifest) ∷ []) (config (codes "strict")) false
      [] evaluator built

resolve_preset-eq_example :
    ((resolve_preset opa (codes "permissive") evaluator).0
      ≡ compile_preset opa
          (if text_eq (codes "permissive") [] then evaluator.default_preset else codes "permissive")
          evaluator.extra_modules)
    × Coherent opa (resolve_preset opa (codes "permissive") evaluator).1
resolve_preset-eq_example = resolve_preset-eq opa (codes "permissive") evaluator coherent

-- Later evaluations, of the preset "strict" and of the default one.
abbrev later : List (RuntimeAction × Text × Text)
later = (action, [], codes "strict") ∷ (action, [], []) ∷ []

-- Modules that the evaluator did not have before.
abbrev more_modules : Dict Text
more_modules = (codes "org.rego", codes "package org") ∷ []

reload_policy-switches_example :
    let (result, re') = reload_policy opa (codes "permissive") more_modules evaluator in
    ((q : Query)
      → compile_preset opa (codes "permissive") more_modules ≡ ok q
      → (result ≡ ok tt)
        × ((resolve_preset opa [] (evaluate_all opa later re')).0 ≡ ok q)
        × ((resolve_preset opa (codes "permissive") (evaluate_all opa later re')).0 ≡ ok q))
    × ((e : Text)
        → compile_preset opa (codes "permissive") more_modules ≡ err e
        → (result ≡ err e) × (re' ≡ evaluator))
reload_policy-switches_example =
    reload_policy-switches opa (codes "permissive") more_modules evaluator later

known : lookup action.skill_id evaluator.manifests ≡ some manifest
unfolding lookup text_eq
known = refl

strict_config : action_for evaluator.config (codes "capability_violation") ≡ block
unfolding action_for lookup
strict_config = refl

quiet : ¬ Decides block (evaluate opa action (codes "partial") (codes "permissive") evaluator).0
unfolding evaluate lookup text_eq first_object get_field get_string
quiet d = d

abbrev tiered : RuntimeAction
tiered = record action { trust_tier = codes "partial" }

evaluate_fail_closed_example :
    (q : Query) × ((resolve_preset opa (codes "permissive") (observe tiered evaluator)).0 ≡ ok q)
    × Allows q (build_runtime_input tiered manifest)
evaluate_fail_closed_example =
    evaluate_fail_closed opa action (codes "partial") (codes "permissive") evaluator manifest known
      strict_config quiet
