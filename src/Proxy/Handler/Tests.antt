-- ===== src/Proxy/Handler/Tests.antt =====
-- Runs of proxy/handler.go and of the hot reload, and their theorems at concrete inputs.
use skillledger.Base.{
  ◌≡◌, refl, ◌≢◌, ◌↔◌, ◌⊎◌, false, ◌||◌, none, some, [], ◌∷◌, ◌++◌, if◌then◌else◌, ◌==◌, nat_eq,
  Text, codes, text_eq, text_eq_inst, to_lower, ok, err, lookup, put, remove,
}
use skillledger.Proxy.Scanner.{block, Request, Scanner, highest_decision, run, format_findings}
use skillledger.Proxy.Scanner.Decision.{Decides}
use skillledger.Proxy.DecisionLog.{DecisionEntry, Outside, new, add, recent}
use skillledger.Proxy.DecisionLog.Ring.{new-Holds}
use skillledger.Proxy.PolicyConfig.{
  PolicyConfig, default_policy_config, load_policy_config, merge_policy_configs, one_of, action_for,
}
use skillledger.Proxy.Capability.{Opa, reload_policy}
use skillledger.Proxy.Handler.{
  protocol_header, skill_id_header, Handler, scanned_body, Outer, on_request, on_response,
  max_body_size,
}
use skillledger.Proxy.Handler.Requests.{
  all_findings, on_request-forwards, refused_iff_Decides, violations_untimed,
}
use skillledger.Proxy.Handler.Reload.{
  reload_policy_config, violation_action, reload_keeps_violation_action, reload_all_or_nothing,
}

abbrev opa : Opa
opa = record {
  runtime_strict = codes "strict";
  runtime_moderate = codes "moderate";
  runtime_permissive = codes "permissive";
  prepare = λ source modules. ok (λ input. ok []);
}

abbrev outside : Outside
outside = record {
  new_action_id = codes "act-1";
  now = 5;
  marshal = λ e. some (e.timestamp ∷ []);
  write = λ file line. file ++ line;
}

abbrev outer : Outer
outer = record {
  outside = outside;
  opa = opa;
  path_match = λ pattern host. ok (text_eq pattern host);
}

-- Every body that is scanned to be "evil" is blocked.
abbrev scan : Scanner (Unit {0})
scan s r body = (
  if text_eq body (codes "evil")
      then record {
        scanner = codes "test";
        severity = codes "high";
        description = codes "evil body";
        pattern = [];
        match_value = [];
        decision = block;
      }
        ∷ []
      else [],
  s,
)

abbrev handler : Handler (Unit {0})
handler = record {
  decision_log = new 3;
  pipeline = scan ∷ [];
  scanners = tt;
  cap_eval = none;
  trust_verifier = none;
  policy = default_policy_config;
  violations = some [];
}

abbrev request : Text → Request
request body = record {
  method = codes "POST";
  host = codes "example.com";
  path = codes "/";
  scheme = [];
  tls = false;
  header = (skill_id_header, codes "s") ∷ (codes "Accept", codes "*/*") ∷ [];
  body = some body;
}

evil_refused :
    (on_request outer (request (codes "evil")) handler).0.refused
    ≡ some (codes "Blocked by SkillLedger proxy: [high] test: evil body")
unfolding on_request run text_eq scanned_body max_body_size highest_decision format_findings
evil_refused = refl

good_forwarded :
    (on_request outer (request (codes "good")) handler).0.forwarded.header
    ≡ (codes "Accept", codes "*/*") ∷ []
unfolding on_request remove put text_eq
good_forwarded = refl

-- The entry in the violation file has the zero time.
evil_written : (on_request outer (request (codes "evil")) handler).1.violations ≡ some (0 ∷ 10 ∷ [])
unfolding on_request run text_eq scanned_body max_body_size
evil_written = refl

response_logged : (on_response outside (some (codes "act-1")) none handler).decision_log.count ≡ 1
unfolding on_response add new
response_logged = refl

cut : scanned_body 3 (codes "evil!") ≡ codes "evi"
unfolding scanned_body
cut = refl

on_request-forwards_example :
    let r = request (codes "good") in
    let sent = (on_request outer r handler).0.forwarded in
    (sent.body ≡ r.body)
    × (sent.host ≡ r.host)
    × (sent.method ≡ r.method)
    × (sent.path ≡ r.path)
    × (lookup (codes "Accept") sent.header ≡ (
        if (protocol_header == codes "Accept") || (skill_id_header == codes "Accept")
        then none
        else lookup (codes "Accept") r.header))
on_request-forwards_example =
    on_request-forwards outer (request (codes "good")) handler (codes "Accept")

refused_iff_Decides_example :
    ((on_request outer (request (codes "evil")) handler).0.refused ≢ none)
    ↔ Decides block (all_findings outer (request (codes "evil")) handler)
refused_iff_Decides_example = refused_iff_Decides outer (request (codes "evil")) handler

violations_untimed_example :
    let r = request (codes "evil") in
    let h' = (on_request outer r handler).1 in
    (e : DecisionEntry) × (logged : DecisionEntry) × (e.timestamp ≡ 0)
    × (e.findings ≡ all_findings outer r handler)
    × (recent 1 h'.decision_log ≡ some (logged ∷ []))
    × (record logged { timestamp = 0 } ≡ e)
    × (logged.timestamp ≡ 5)
    × ((file line : Text)
        → some [] ≡ some file
        → all_findings outer r handler ≢ []
        → outside.marshal e ≡ some line
        → h'.violations ≡ some (outside.write file (line ++ 10 ∷ [])))
    × (all_findings outer r handler ≡ [] → h'.violations ≡ some [])
violations_untimed_example =
    violations_untimed outer (request (codes "evil")) handler [] (new-Holds 3)

abbrev loaded : PolicyConfig
loaded = record {
  preset = codes "strict";
  response_actions = (codes "capability_violation", codes "warn") ∷ [];
  provenance = [];
  skill_mappings = [];
}

-- A handler whose capability checks block.
abbrev guarded : Handler (Unit {0})
guarded = record handler {
  cap_eval = some (record {
    prepared = λ input. ok [];
    default_preset = codes "moderate";
    preset_cache = [];
    manifests = [];
    config = default_policy_config;
    extra_modules = [];
    observer = none;
  });
}

abbrev reload : Handler (Unit {0})
reload =
    reload_policy_config opa [] (λ yaml. ok loaded) (λ pattern host. ok false) (ok (codes "yaml"))
      guarded

reloaded_preset : reload.policy.preset ≡ codes "strict"
unfolding reload_policy_config load_policy_config text_eq one_of to_lower merge_policy_configs
reloaded_preset = refl

-- The new file says "warn", and the capability checks still block.
stale_action : violation_action reload.cap_eval ≡ some block
unfolding reload_policy_config load_policy_config text_eq one_of to_lower default_policy_config
    merge_policy_configs action_for lookup reload_policy put
stale_action = refl

reload_keeps_violation_action_example :
    violation_action reload.cap_eval ≡ violation_action guarded.cap_eval
reload_keeps_violation_action_example =
    reload_keeps_violation_action opa [] (λ yaml. ok loaded) (λ pattern host. ok false)
      (ok (codes "yaml")) guarded

reload_all_or_nothing_example :
    (((e : Text) × (ok (codes "yaml") ≡ err e) × (reload ≡ guarded))
      ⊎ ((yaml : Text) × (msg : Text) × (ok (codes "yaml") ≡ ok yaml)
          × (load_policy_config (λ y. ok loaded) (λ pattern host. ok false) yaml ≡ err msg)
          × (reload ≡ guarded)))
    ⊎ ((yaml : Text) × (pc : PolicyConfig) × (ok (codes "yaml") ≡ ok yaml)
        × (load_policy_config (λ yaml. ok loaded) (λ pattern host. ok false) yaml ≡ ok pc)
        × (reload.policy ≡ merge_policy_configs default_policy_config pc)
        × (reload.decision_log ≡ guarded.decision_log)
        × (reload.scanners ≡ guarded.scanners)
        × (reload.trust_verifier ≡ guarded.trust_verifier)
        × (reload.violations ≡ guarded.violations))
reload_all_or_nothing_example =
    reload_all_or_nothing opa [] (λ yaml. ok loaded) (λ pattern host. ok false) (ok (codes "yaml"))
      guarded
