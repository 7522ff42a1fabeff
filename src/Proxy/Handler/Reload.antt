-- ===== src/Proxy/Handler/Reload.antt =====
-- The hot reload of the policy configuration: reloadPolicyConfig of proxy/server.go.
use skillledger.Base.{
  ◌≡◌, ◌⊎◌, inl, inr, Bool, Option, none, some, arith, if◌then◌else◌, Text, codes, text_eq, Outcome,
  ok, err, Outcome-cases, Dict,
}
use skillledger.Proxy.Scanner.{ActionType}
use skillledger.Proxy.PolicyConfig.{
  PolicyConfig, action_for, load_policy_config, merge_policy_configs, default_policy_config,
}
use skillledger.Proxy.Capability.{Opa, RuntimeEvaluator, reload_policy}
use skillledger.Proxy.Handler.{Handler}

-- The end of reloadPolicyConfig of proxy/server.go, for a configuration that was loaded.
unfoldable pub apply_config : {S : Type 0} → Opa → Dict Text → PolicyConfig → Handler S → Handler S
apply_config opa modules merged h = record h {
  policy = merged;
  cap_eval = elim h.cap_eval [
    | none ↦ none
    | some re ↦
        let (result, re') = reload_policy opa merged.preset modules re in
        if text_eq h.policy.preset merged.preset then some re else some re'
  ];
}

-- reloadPolicyConfig: a file that cannot be read or loaded changes nothing.
unfoldable pub reload_policy_config :
    {S : Type 0}
    → Opa
    → Dict Text
    → (Text → Outcome PolicyConfig)
    → (Text → Text → Outcome Bool)
    → Outcome Text
    → Handler S
    → Handler S
unfolding apply_config
reload_policy_config opa modules unmarshal path_match file h = elim file [
  | err e ↦ h
  | ok yaml ↦ elim (load_policy_config unmarshal path_match yaml) [
    | err e ↦ h
    | ok pc ↦ apply_config opa modules (merge_policy_configs default_policy_config pc) h
  ]
]

-- The response action that capability checks use; `none` without an evaluator.
abbrev pub violation_action : Option RuntimeEvaluator → Option ActionType
violation_action none = none
violation_action (some re) = some (action_for re.config (codes "capability_violation"))

module _ {S : Type 0} where
  apply_config-violation_action :
      (o : Opa) (modules : Dict Text) (pc : PolicyConfig) (h : Handler S)
      → violation_action (apply_config o modules pc h).cap_eval ≡ violation_action h.cap_eval
  unfolding apply_config reload_policy
  apply_config-violation_action o modules pc h = ground arith

  reloaded :
      (o : Opa) (modules : Dict Text) (unmarshal : Text → Outcome PolicyConfig)
      (path_match : Text → Text → Outcome Bool) (yaml : Text) (pc : PolicyConfig) (h : Handler S)
      → load_policy_config unmarshal path_match yaml ≡ ok pc
      → reload_policy_config o modules unmarshal path_match (ok yaml) h
        ≡ apply_config o modules (merge_policy_configs default_policy_config pc) h
  unfolding reload_policy_config
  reloaded o modules unmarshal path_match yaml pc h e = rw (reload_policy_config, e)

  refused :
      (o : Opa) (modules : Dict Text) (unmarshal : Text → Outcome PolicyConfig)
      (path_match : Text → Text → Outcome Bool) (yaml msg : Text) (h : Handler S)
      → load_policy_config unmarshal path_match yaml ≡ err msg
      → reload_policy_config o modules unmarshal path_match (ok yaml) h ≡ h
  unfolding reload_policy_config
  refused o modules unmarshal path_match yaml msg h e = rw (reload_policy_config, e)

  -- A reload of the configuration file never changes the response action of the capability checks,
  -- whatever `capability_violation` is in the new file: the evaluator keeps its own configuration.
  pub reload_keeps_violation_action :
      (o : Opa) (modules : Dict Text) (unmarshal : Text → Outcome PolicyConfig)
      (path_match : Text → Text → Outcome Bool) (file : Outcome Text) (h : Handler S)
      → violation_action (reload_policy_config o modules unmarshal path_match file h).cap_eval
        ≡ violation_action h.cap_eval
  unfolding reload_policy_config
  reload_keeps_violation_action o modules unmarshal path_match file h = elim (Outcome-cases file) [
    | inr (e, eq) ↦ rw eq
    | inl (yaml, eq) ↦ elim (Outcome-cases (load_policy_config unmarshal path_match yaml)) [
      | inr (e, eq') ↦ rw (eq, refused o modules unmarshal path_match yaml e h eq')
      | inl (pc, eq') ↦
          rw (eq, reloaded o modules unmarshal path_match yaml pc h eq')
            (apply_config-violation_action o modules (merge_policy_configs default_policy_config pc)
              h)
    ]
  ]

  -- A reload has one of three results. The file could not be read, and the handler is unchanged; or
  -- its content was refused, and the handler is unchanged; or it was accepted, the policy is the defaults overlaid with it, and the decision
  -- log, the scanners, the trust cache and the violation file are those of before.
  pub reload_all_or_nothing :
      (o : Opa) (modules : Dict Text) (unmarshal : Text → Outcome PolicyConfig)
      (path_match : Text → Text → Outcome Bool) (file : Outcome Text) (h : Handler S)
      → let h' = reload_policy_config o modules unmarshal path_match file h in
        (((e : Text) × (file ≡ err e) × (h' ≡ h))
          ⊎ ((yaml : Text) × (msg : Text) × (file ≡ ok yaml)
              × (load_policy_config unmarshal path_match yaml ≡ err msg)
              × (h' ≡ h)))
        ⊎ ((yaml : Text) × (pc : PolicyConfig) × (file ≡ ok yaml)
            × (load_policy_config unmarshal path_match yaml ≡ ok pc)
            × (h'.policy ≡ merge_policy_configs default_policy_config pc)
            × (h'.decision_log ≡ h.decision_log)
            × (h'.scanners ≡ h.scanners)
            × (h'.trust_verifier ≡ h.trust_verifier)
            × (h'.violations ≡ h.violations))
  unfolding reload_policy_config apply_config
  reload_all_or_nothing o modules unmarshal path_match file h = elim (Outcome-cases file) [
    | inr (e, eq) ↦ inl (inl (e, eq, rw eq))
    | inl (yaml, eq) ↦ elim (Outcome-cases (load_policy_config unmarshal path_match yaml)) [
      | inr (e, eq') ↦
          inl (inr (yaml, e, eq, eq', rw (eq, refused o modules unmarshal path_match yaml e h eq')))
      | inl (pc, eq') ↦ inr (
        yaml,
        pc,
        eq,
        eq',
        rw (eq, reloaded o modules unmarshal path_match yaml pc h eq'),
        rw (eq, reloaded o modules unmarshal path_match yaml pc h eq'),
        rw (eq, reloaded o modules unmarshal path_match yaml pc h eq'),
        rw (eq, reloaded o modules unmarshal path_match yaml pc h eq'),
        rw (eq, reloaded o modules unmarshal path_match yaml pc h eq'),
      )
    ]
  ]
