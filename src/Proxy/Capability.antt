-- ===== src/Proxy/Capability.antt =====
-- proxy/capability.go and the runtime presets of policy/preset: capability checks by OPA.
-- A compiled query is what its Eval does. OPA's compiler and the embedded Rego sources are arguments;
-- a section under the mutex is one step. A query that another goroutine compiled meanwhile is the
-- same, so the second look at the cache before the write is part of the step.
pub mod Closed
pub mod Presets
mod Tests
use skillledger.Base.{
  Bool, false, ◌&&◌, Option, none, some, List, [], ◌∷◌, ◌++◌, nat_beq, if◌then◌else◌, length, Text,
  codes, text_eq, Outcome, ok, err, ◌>>=◌, ◌>>◌, wrap, Dict, lookup, put,
}
use skillledger.Manifest.{Capabilities, Manifest}
use skillledger.Rego.{
  array, object, Fields, ResultSet, get_field, any_slice_to_strings, field_names, first_object,
  get_string,
}
use skillledger.Proxy.Scanner.{ActionType, block, warn, Finding}
use skillledger.Proxy.PolicyConfig.{PolicyConfig, action_for}

pub record RuntimeAction : Type 0 where
  pub skill_id : Text
  pub action_type : Text
  pub destination : Text
  pub method : Text
  pub tool_name : Text
  pub resource : Text
  pub trust_tier : Text

-- The input map of buildRuntimeInput; a nil list and an empty one are the same.
pub record RuntimeInput : Type 0 where
  pub action_type : Text
  pub destination : Text
  pub method : Text
  pub tool : Text
  pub resource : Text
  pub capabilities : Capabilities
  pub trust_tier : Text

abbrev pub Query : Type 0
Query = RuntimeInput → Outcome ResultSet

-- The embedded sources and rego.New(...).PrepareForEval.
pub record Opa : Type 0 where
  pub runtime_strict : Text
  pub runtime_moderate : Text
  pub runtime_permissive : Text
  pub prepare : Text → Dict Text → Outcome Query

-- preset.GetRuntime
unfoldable pub get_runtime : Opa → Text → Outcome Text
get_runtime o name =
    if text_eq name (codes "strict")
    then ok o.runtime_strict
    else if text_eq name (codes "moderate")
    then ok o.runtime_moderate
    else if text_eq name (codes "permissive")
    then ok o.runtime_permissive
    else err (
        codes "unknown runtime preset "
        ++ (name ++ codes ": available: strict, moderate, permissive"))

unfoldable pub compile_runtime_policy : Opa → Text → Dict Text → Outcome Query
compile_runtime_policy o source modules =
    wrap (codes "compiling runtime policy") (o.prepare source modules)

-- The two steps by which every query is made.
unfoldable pub compile_preset : Opa → Text → Dict Text → Outcome Query
unfolding get_runtime compile_runtime_policy
compile_preset o name modules = do
  source ← wrap (codes "loading runtime preset " ++ name) (get_runtime o name)
  compile_runtime_policy o source modules

pub record RuntimeEvaluator : Type 0 where
  pub prepared : Query
  pub default_preset : Text
  pub preset_cache : Dict Query
  pub manifests : Dict Manifest
  pub config : PolicyConfig
  pub extra_modules : Dict Text
  pub observer : Option (List RuntimeAction)  -- what an observer was told, the last first

-- NewRuntimeEvaluator; an observer that is given has been told nothing.
unfoldable pub new_runtime_evaluator :
    Opa → Text → Dict Manifest → PolicyConfig → Bool → Dict Text → Outcome RuntimeEvaluator
unfolding compile_preset
new_runtime_evaluator o name manifests config observed modules = do
  prepared ← compile_preset o name modules
  ok (record {
    prepared = prepared;
    default_preset = name;
    preset_cache = (name, prepared) ∷ [];
    manifests = manifests;
    config = config;
    extra_modules = modules;
    observer = if observed then some [] else none;
  })

-- resolvePreset
unfoldable pub resolve_preset : Opa → Text → RuntimeEvaluator → Outcome Query × RuntimeEvaluator
unfolding compile_preset
resolve_preset o name re =
    if text_eq name [] then (ok re.prepared, re) else elim (lookup name re.preset_cache) [
      | some cached ↦ (ok cached, re)
      | none ↦ elim (compile_preset o name re.extra_modules) [
        | err e ↦ (err e, re)
        | ok compiled ↦
            (ok compiled, record re { preset_cache = put name compiled re.preset_cache })
      ]
    ]

-- buildRuntimeInput: an empty tier counts as "unverified".
unfoldable pub build_runtime_input : RuntimeAction → Manifest → RuntimeInput
build_runtime_input action m = record {
  action_type = action.action_type;
  destination = action.destination;
  method = action.method;
  tool = action.tool_name;
  resource = action.resource;
  capabilities = m.capabilities;
  trust_tier = if text_eq action.trust_tier [] then codes "unverified" else action.trust_tier;
}

abbrev pub capability_finding : Text → Text → ActionType → Finding
capability_finding severity description decision = record {
  scanner = codes "capability";
  severity = severity;
  description = description;
  pattern = [];
  match_value = [];
  decision = decision;
}

-- extractStringSetFromResult; a nil slice is an empty one.
unfoldable pub extract_strings : Fields → Text → List Text
extract_strings fs key = elim (get_field key fs) [
  | none ↦ []
  | some v ↦ elim v [ array vs ↦ any_slice_to_strings vs | object gs ↦ field_names gs | _ ↦ [] ]
]

unfoldable pub findings_of : Text → ActionType → List Text → List Finding
findings_of severity decision [] = []
findings_of severity decision (msg ∷ msgs) =
    capability_finding severity msg decision ∷ findings_of severity decision msgs

abbrev pub is_deny : Option Text → Bool
is_deny none = false
is_deny (some d) = text_eq d (codes "deny")

-- The decision for a denial.
abbrev pub denied : PolicyConfig → ActionType
denied config = action_for config (codes "capability_violation")

unfoldable pub denial_findings : PolicyConfig → List Text → List Finding
unfolding findings_of
denial_findings config denials = findings_of (codes "high") (denied config) denials

unfoldable pub warning_findings : Fields → List Finding
unfolding findings_of extract_strings
warning_findings fs = findings_of (codes "medium") warn (extract_strings fs (codes "warnings"))

-- A decision "deny" without a message.
unfoldable pub silent_denial : PolicyConfig → Fields → List Text → List Finding
silent_denial config fs denials =
    if is_deny (get_string (codes "decision") fs) && nat_beq (length denials) 0
    then capability_finding (codes "high") (codes "policy denied action") (denied config) ∷ []
    else []

-- parseRuntimeResult for an object.
unfoldable pub object_findings : PolicyConfig → Fields → List Finding
unfolding denial_findings warning_findings silent_denial extract_strings
object_findings config fs =
    let denials = extract_strings fs (codes "deny") in
    denial_findings config denials ++ (warning_findings fs ++ silent_denial config fs denials)

-- The descriptions of the two results that are no object.
abbrev pub no_object : ResultSet → Text
no_object ((v ∷ vs) ∷ rs) = codes "policy denied action (invalid result type)"
no_object _ = codes "policy denied action (empty result)"

-- parseRuntimeResult
unfoldable pub parse_runtime_result : PolicyConfig → ResultSet → List Finding
unfolding object_findings
parse_runtime_result config rs = elim (first_object rs) [
  | none ↦
      capability_finding (codes "high") (no_object rs)
        (action_for config (codes "capability_violation"))
      ∷ []
  | some fs ↦ object_findings config fs
]

unfoldable pub eval_findings : PolicyConfig → Query → RuntimeInput → List Finding
unfolding parse_runtime_result
eval_findings config query input = elim (query input) [
  | err e ↦
      capability_finding (codes "critical") (codes "policy evaluation error: " ++ e) block ∷ []
  | ok rs ↦ parse_runtime_result config rs
]

-- re.observer.Observe(action), if there is an observer
unfoldable pub observe : RuntimeAction → RuntimeEvaluator → RuntimeEvaluator
observe action re = record re {
  observer = elim re.observer [ none ↦ none | some seen ↦ some (action ∷ seen) ];
}

-- Evaluate with the manifest found.
unfoldable pub evaluate_manifest :
    Opa → RuntimeAction → Manifest → Text → RuntimeEvaluator → List Finding × RuntimeEvaluator
unfolding resolve_preset build_runtime_input eval_findings
evaluate_manifest o action m preset_override re =
    let (query, re') = resolve_preset o preset_override re in
    elim query [
      | err e ↦ (
        capability_finding (codes "critical") (codes "failed to load preset override: " ++ e) block
            ∷ [],
        re',
      )
      | ok q ↦ (eval_findings re'.config q (build_runtime_input action m), re')
    ]

-- Evaluate
unfoldable pub evaluate :
    Opa → RuntimeAction → Text → Text → RuntimeEvaluator → List Finding × RuntimeEvaluator
unfolding evaluate_manifest observe
evaluate o action trust_tier preset_override re =
    let tiered = record action { trust_tier = trust_tier } in
    elim (lookup action.skill_id re.manifests) [
      | none ↦ ([], observe tiered re)
      | some m ↦ evaluate_manifest o tiered m preset_override (observe tiered re)
    ]

-- ReloadPolicy: on an error nothing changes.
unfoldable pub reload_policy :
    Opa → Text → Dict Text → RuntimeEvaluator → Outcome (Unit {0}) × RuntimeEvaluator
unfolding compile_preset
reload_policy o name modules re = elim (compile_preset o name modules) [
  | err e ↦ (err e, re)
  | ok q ↦ (
    ok tt,
    record re { prepared = q; default_preset = name; preset_cache = put name q re.preset_cache },
  )
]

-- AddManifest
unfoldable pub add_manifest : Text → Manifest → RuntimeEvaluator → RuntimeEvaluator
add_manifest skill m re = record re { manifests = put skill m re.manifests }
