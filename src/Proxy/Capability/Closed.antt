-- ===== src/Proxy/Capability/Closed.antt =====
-- Capability checks of proxy/capability.go fail closed.
use skillledger.Base.{
  ◌≡◌, refl, inl, inr, false, some, List, [], ◌∷◌, ◌++◌, arith, Bool-cases, Option-cases, Text,
  codes, ok, Outcome-cases, lookup,
}
use skillledger.Manifest.{Manifest}
use skillledger.Rego.{Fields, ResultSet, first_object, get_string}
use skillledger.Proxy.Scanner.{block}
use skillledger.Proxy.Scanner.Decision.{Decides, Decides-append_left, Decides-append_right}
use skillledger.Proxy.PolicyConfig.{PolicyConfig, action_for}
use skillledger.Proxy.Capability.{
  RuntimeAction, RuntimeInput, Query, Opa, RuntimeEvaluator, resolve_preset, build_runtime_input,
  extract_strings, is_deny, denied, denial_findings, warning_findings, silent_denial,
  object_findings, parse_runtime_result, eval_findings, evaluate_manifest, evaluate, observe,
}

-- OPA returned an object without denials for this input.
abbrev pub Allows : Query → RuntimeInput → Type 0
Allows q input =
    (rs : ResultSet) × (fs : Fields) × (q input ≡ ok rs)
    × (first_object rs ≡ some fs)
    × (extract_strings fs (codes "deny") ≡ [])
    × (is_deny (get_string (codes "decision") fs) ≡ false)

-- The three parts of the findings, without a block among them.
quiet_parts :
    (config : PolicyConfig) (fs : Fields)
    → ¬ Decides block (object_findings config fs)
    → let denials = extract_strings fs (codes "deny") in
      (¬ Decides block (denial_findings config denials))
      × (¬ Decides block (silent_denial config fs denials))
unfolding object_findings
quiet_parts config fs quiet =
    let denials = extract_strings fs (codes "deny") in
    let rest = warning_findings fs ++ silent_denial config fs denials in
    (
      λ d. quiet (Decides-append_left block (denial_findings config denials) rest d),
      λ d. quiet (
          Decides-append_right block (denial_findings config denials) rest
            (Decides-append_right block (warning_findings fs) (silent_denial config fs denials) d)),
    )

no_denials :
    (config : PolicyConfig) (denials : List Text)
    → denied config ≡ block
    → ¬ Decides block (denial_findings config denials)
    → denials ≡ []
unfolding denial_findings
no_denials config [] strict quiet = refl
no_denials config (msg ∷ msgs) strict quiet = absurd (quiet (inl strict))

no_silent_denial :
    (config : PolicyConfig) (fs : Fields) (denials : List Text)
    → denied config ≡ block
    → denials ≡ []
    → ¬ Decides block (silent_denial config fs denials)
    → is_deny (get_string (codes "decision") fs) ≡ false
unfolding silent_denial
no_silent_denial config fs denials strict empty quiet =
    elim (Bool-cases (is_deny (get_string (codes "decision") fs))) [
      | inr e ↦ e
      | inl e ↦ absurd (quiet (rw (e, empty) (inl strict)))
    ]

eval_findings-Allows :
    (config : PolicyConfig) (q : Query) (input : RuntimeInput)
    → action_for config (codes "capability_violation") ≡ block
    → ¬ Decides block (eval_findings config q input)
    → Allows q input
unfolding eval_findings parse_runtime_result
eval_findings-Allows config q input strict quiet = elim (Outcome-cases (q input)) [
  | inr (msg, e) ↦ absurd (quiet (rw (e, eval_findings) (inl refl)))
  | inl (rs, e) ↦ elim (Option-cases (first_object rs)) [
    | inl f ↦ absurd (quiet (rw (e, eval_findings) (rw (f, parse_runtime_result) (inl strict))))
    | inr (fs, f) ↦
        let quiet' : ¬ Decides block (object_findings config fs) =
          λ d. quiet (rw (e, eval_findings) (rw (f, parse_runtime_result) d)) in
        let (no_message, no_decision) = quiet_parts config fs quiet' in
        let denials = no_denials config (extract_strings fs (codes "deny")) strict no_message in
        (
          rs,
          fs,
          e,
          f,
          denials,
          no_silent_denial config fs (extract_strings fs (codes "deny")) strict denials no_decision,
        )
  ]
]

config-resolve :
    (o : Opa) (name : Text) (re : RuntimeEvaluator)
    → (resolve_preset o name re).1.config ≡ re.config
unfolding resolve_preset
config-resolve o name re = ground arith

-- If capability violations are configured to block, an action of a skill with a manifest goes
-- unblocked only if the preset was compiled, OPA evaluated it without an error to an object, and
-- that object has no denial and not the decision "deny".
pub evaluate_fail_closed :
    (o : Opa) (action : RuntimeAction) (tier preset : Text) (re : RuntimeEvaluator) (m : Manifest)
    → lookup action.skill_id re.manifests ≡ some m
    → action_for re.config (codes "capability_violation") ≡ block
    → ¬ Decides block (evaluate o action tier preset re).0
    → (q : Query) × ((resolve_preset o preset (observe (record action { trust_tier = tier }) re)).0
        ≡ ok q)
      × Allows q (build_runtime_input (record action { trust_tier = tier }) m)
unfolding evaluate evaluate_manifest
evaluate_fail_closed o action tier preset re m found strict quiet =
    let re1 = observe (record action { trust_tier = tier }) re in
    let same = config-resolve o preset re1 in
    elim (Outcome-cases (resolve_preset o preset re1).0) [
      | inr (msg, e) ↦ absurd (quiet (rw (found, evaluate) (rw (e, evaluate_manifest) (inl refl))))
      | inl (q, e) ↦ (
        q,
        e,
        eval_findings-Allows (resolve_preset o preset re1).1.config q _ (rw same strict)
            (λ d. quiet (rw (found, evaluate) (rw (e, evaluate_manifest) d))),
      )
    ]
