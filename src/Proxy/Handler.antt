-- ===== src/Proxy/Handler.antt =====
-- proxy/handler.go and proxy/protocol.go: what happens to an intercepted request. Header names are
-- in canonical form. The body is what can be read of it; path.Match, uuid, the clock and the file
-- writes are arguments.
pub mod Requests
pub mod Reload
mod Tests
use skillledger.Base.{
  ℕ, ◌+◌, Bool, Option, none, some, List, [], ◌∷◌, ◌++◌, ltb, if◌then◌else◌, length, take, drop,
  Text, codes, text_eq, Outcome, ok, err, lookup, put, remove,
}
use skillledger.Proxy.Scanner.{
  ActionType, allow, block, Finding, Request, Scanner, run, highest_decision, format_findings,
}
use skillledger.Proxy.DecisionLog.{
  DecisionEntry, zero_entry, DecisionLog, Outside, add, write_findings,
}
use skillledger.Proxy.TrustVerifier.{TrustTier, verified, partial, unverified, State, get_tier}
use skillledger.Proxy.PolicyConfig.{PolicyConfig, SkillMapping, provenance_preset_for}
use skillledger.Proxy.Capability.{RuntimeAction, Opa, RuntimeEvaluator, evaluate}

abbrev pub protocol_header : Text
protocol_header = codes "X-Skillledger-Proxy"

abbrev pub skill_id_header : Text
skill_id_header = codes "X-Skillledger-Skillid"

-- 10 * 1024 * 1024
unfoldable pub max_body_size : ℕ
max_body_size = 10485760

-- Handler; `S` is the state of the scanners. A nil component is `none`.
pub record Handler (S : Type 0) : Type 0 where
  pub decision_log : DecisionLog
  pub pipeline : List (Scanner S)
  pub scanners : S
  pub cap_eval : Option RuntimeEvaluator
  pub trust_verifier : Option State
  pub policy : PolicyConfig
  pub violations : Option Text  -- the contents of the violation file, if one is set

-- InjectProtocolHeader and StripProtocolHeader
unfoldable pub inject_protocol_header : Request → Request
inject_protocol_header r = record r { header = put protocol_header (codes "v1") r.header }

unfoldable pub strip_protocol_header : Request → Request
strip_protocol_header r = record r { header = remove protocol_header r.header }

-- The body that is forwarded: what the limited read returned, and the rest.
unfoldable pub forwarded_body : ℕ → Text → Text
forwarded_body limit b = take (limit + 1) b ++ drop (limit + 1) b

-- The body that is scanned: what the limited read returned, cut to the limit.
unfoldable pub scanned_body : ℕ → Text → Text
scanned_body limit b =
    let body = take (limit + 1) b in if ltb limit (length body) then take limit body else body

-- resolveSkillIDFromMappings; an error of path.Match counts as no match.
unfoldable pub resolve_skill_id : (Text → Text → Outcome Bool) → Text → List SkillMapping → Text
resolve_skill_id path_match host [] = []
resolve_skill_id path_match host (m ∷ ms) =
    let rest = resolve_skill_id path_match host ms in
    elim (path_match m.pattern host) [
      | err e ↦ rest
      | ok matched ↦ if matched then m.skill_id else rest
    ]

-- Header.Get: an absent header is empty.
abbrev pub header_value : Text → Request → Text
header_value name r = elim (lookup name r.header) [ none ↦ [] | some v ↦ v ]

-- The skill of a request: its header, or the first mapping of its host.
unfoldable pub skill_of : (Text → Text → Outcome Bool) → PolicyConfig → Request → Text
unfolding resolve_skill_id
skill_of path_match pc r =
    let given = header_value skill_id_header r in
    if text_eq given [] then resolve_skill_id path_match r.host pc.skill_mappings else given

abbrev pub tier_name : TrustTier → Text
tier_name verified = codes "verified"
tier_name partial = codes "partial"
tier_name unverified = codes "unverified"

-- The resolved trust tier ("" if none), and the verifier after it.
unfoldable pub resolve_tier : Text → Option State → Text × Option State
resolve_tier skill none = ([], none)
resolve_tier skill (some s) =
    let (tier, s') = get_tier skill s in
    if text_eq skill [] then ([], some s) else (tier_name tier, some s')

pub record Outer : Type 0 where
  pub outside : Outside
  pub opa : Opa
  pub path_match : Text → Text → Outcome Bool

-- The findings of the capability check, the tier, and the two components after it.
pub record Checked : Type 0 where
  pub found : List Finding
  pub tier : Text
  pub cap_eval : Option RuntimeEvaluator
  pub trust_verifier : Option State

abbrev preset_for : PolicyConfig → Text → Text
preset_for pc tier = if text_eq tier [] then [] else provenance_preset_for pc tier

unfoldable pub check_capability :
    Outer → PolicyConfig → Request → Option State → Option RuntimeEvaluator → Checked
unfolding skill_of resolve_tier
check_capability o pc r tv none = record {
  found = [];
  tier = [];
  cap_eval = none;
  trust_verifier = tv;
}
check_capability o pc r tv (some re) =
    let skill = skill_of o.path_match pc r in
    let (tier, tv') = resolve_tier skill tv in
    let action : RuntimeAction = record {
      skill_id = skill;
      action_type = codes "http_request";
      destination = r.host;
      method = r.method;
      tool_name = [];
      resource = [];
      trust_tier = [];
    } in
    let (found, re') = evaluate o.opa action tier (preset_for pc tier) re in
    record { found = found; tier = tier; cap_eval = some re'; trust_verifier = tv' }

-- The decision and the reason for all findings.
abbrev pub decide : List Finding → ActionType × Text
decide [] = (allow, codes "no findings")
decide (f ∷ fs) = (highest_decision (f ∷ fs), format_findings (f ∷ fs))

abbrev scheme_of : Request → Text
scheme_of r =
    if r.tls then codes "https" else if text_eq r.scheme [] then codes "http" else r.scheme

unfoldable pub request_entry : Outer → Request → Text → List Finding → DecisionEntry
request_entry o r tier found =
    let (decision, reason) = decide found in
    record zero_entry {
      action_id = o.outside.new_action_id;
      direction = codes "request";
      destination = r.host;
      method = r.method;
      decision = decision;
      reason = reason;
      protocol = scheme_of r;
      trust_tier = tier;
      findings = found;
    }

-- A write error of the violation file is only logged.
unfoldable pub write_violation : Outside → DecisionEntry → Option Text → Option Text
unfolding write_findings
write_violation o e none = none
write_violation o e (some file) = elim (write_findings o.marshal o.write e file) [
  | none ↦ some file
  | some file' ↦ some file'
]

-- The request that goes on, the text of a 403 response if it is blocked, and what the response
-- handler is handed.
pub record Answer : Type 0 where
  pub forwarded : Request
  pub refused : Option Text
  pub user_data : Text

abbrev pub refusal : DecisionEntry → Option Text
refusal e = elim e.decision [
  | block ↦ some (codes "Blocked by SkillLedger proxy: " ++ e.reason)
  | _ ↦ none
]

abbrev pub body_of : Request → Text
body_of r = elim r.body [ none ↦ [] | some b ↦ b ]

abbrev pub with_forwarded_body : Request → Request
with_forwarded_body r = record r {
  body = elim r.body [ none ↦ none | some b ↦ some (forwarded_body max_body_size b) ];
}

abbrev strip_headers : Request → Request
strip_headers r = strip_protocol_header (record r { header = remove skill_id_header r.header })

-- OnRequest
unfoldable pub on_request : {S : Type 0} → Outer → Request → Handler S → Answer × Handler S
unfolding inject_protocol_header strip_protocol_header check_capability request_entry
    write_violation
on_request o r0 h =
    let r = with_forwarded_body (inject_protocol_header r0) in
    let (scanned, scanners') =
      run h.pipeline h.scanners r (scanned_body max_body_size (body_of r0)) in
    let checked = check_capability o h.policy r h.trust_verifier h.cap_eval in
    let entry = request_entry o r checked.tier (scanned ++ checked.found) in
    (
      record { forwarded = strip_headers r; refused = refusal entry; user_data = entry.action_id },
      record h {
        decision_log = add o.outside entry h.decision_log;
        scanners = scanners';
        cap_eval = checked.cap_eval;
        trust_verifier = checked.trust_verifier;
        violations = write_violation o.outside entry h.violations;
      },
    )

-- OnResponse; `request` is ctx.Req if there is one.
unfoldable pub on_response :
    {S : Type 0} → Outside → Option Text → Option Request → Handler S → Handler S
unfolding write_violation
on_response o user_data request h =
    let entry = record zero_entry {
      action_id = elim user_data [ none ↦ [] | some id ↦ id ++ codes "-resp" ];
      direction = codes "response";
      decision = allow;
      reason = codes "passthrough (Phase 9)";
      destination = elim request [ none ↦ [] | some r ↦ r.host ];
      method = elim request [ none ↦ [] | some r ↦ r.method ];
    } in
    record h {
      decision_log = add o entry h.decision_log;
      violations = write_violation o entry h.violations;
    }
