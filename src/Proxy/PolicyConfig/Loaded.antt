-- ===== src/Proxy/PolicyConfig/Loaded.antt =====
-- LoadPolicyConfig of proxy/policy_config.go: what a loaded configuration guarantees.
use skillledger.Base.{
  ◌≡◌, ◌≢◌, inl, inr, Bool, true, some, List, [], ◌∷◌, arith, Option-cases, All, Text, codes,
  text_eq, text_eq_iff, to_lower, Outcome, ok, wrap, Outcome-cases, >>=-ok, Dict, lookup,
}
use mathlib.Core.Path.{subst}
use skillledger.Proxy.PolicyConfig.{
  PolicyConfig, SkillMapping, one_of, valid_presets, valid_actions, check_actions, check_provenance,
  check_mappings, load_policy_config, provenance_preset_for, check_preset,
}

check_actions-lookup :
    (m : Dict Text) (k action : Text)
    → check_actions m ≡ ok tt
    → lookup k m ≡ some action
    → one_of (to_lower action) valid_actions ≡ true
unfolding check_actions lookup
check_actions-lookup [] k action h e = cc
check_actions-lookup ((j, a) ∷ m) k action h e = ground (arith, check_actions-lookup m k action)

check_provenance-lookup :
    (m : Dict Text) (k preset : Text)
    → check_provenance m ≡ ok tt
    → lookup k m ≡ some preset
    → one_of preset valid_presets ≡ true
unfolding check_provenance lookup
check_provenance-lookup [] k preset h e = cc
check_provenance-lookup ((j, a) ∷ m) k preset h e =
    ground (arith, check_provenance-lookup m k preset)

provenance_preset_for-valid :
    (pc : PolicyConfig) (tier : Text)
    → check_provenance pc.provenance ≡ ok tt
    → one_of (provenance_preset_for pc tier) valid_presets ≡ true
unfolding provenance_preset_for
provenance_preset_for-valid pc tier h = elim (Option-cases (lookup tier pc.provenance)) [
  | inl e ↦ rw (e, provenance_preset_for) (unfold one_of text_eq in ground arith)
  | inr (preset, e) ↦
      rw (e, provenance_preset_for) (check_provenance-lookup pc.provenance tier preset h e)
]

-- A mapping with a pattern, a skill and a well-formed glob.
abbrev pub IsUsable : (Text → Text → Outcome Bool) → SkillMapping → Type 0
IsUsable path_match m =
    (m.pattern ≢ []) × (m.skill_id ≢ []) × (b : Bool) × (path_match m.pattern [] ≡ ok b)

check_mappings-All :
    (path_match : Text → Text → Outcome Bool) (ms : List SkillMapping)
    → check_mappings path_match ms ≡ ok tt
    → All (IsUsable path_match) ms
unfolding check_mappings
check_mappings-All path_match [] h = tt
check_mappings-All path_match (m ∷ ms) h = elim (Outcome-cases (path_match m.pattern [])) [
  | inr (msg, e) ↦ absurd (ground arith)
  | inl (b, e) ↦ (
    (ground (arith, text_eq_iff m.pattern []), ground (arith, text_eq_iff m.skill_id []), b, e),
    check_mappings-All path_match ms (ground arith),
  )
]

abbrev Checked : (Text → Text → Outcome Bool) → PolicyConfig → Type 0
Checked path_match pc =
    (check_preset pc.preset ≡ ok tt)
    × (check_actions pc.response_actions ≡ ok tt)
    × (check_provenance pc.provenance ≡ ok tt)
    × (check_mappings path_match pc.skill_mappings ≡ ok tt)

load-checks :
    (unmarshal : Text → Outcome PolicyConfig) (path_match : Text → Text → Outcome Bool)
    (yaml : Text) (pc : PolicyConfig)
    → load_policy_config unmarshal path_match yaml ≡ ok pc
    → Checked path_match pc
unfolding load_policy_config
load-checks unmarshal path_match yaml pc h =
    let (read, _, rest) = >>=-ok (wrap (codes "parsing policy config YAML") (unmarshal yaml)) _ h in
    let (_, preset, rest1) = >>=-ok (check_preset read.preset) _ rest in
    let (_, actions, rest2) = >>=-ok (check_actions read.response_actions) _ rest1 in
    let (_, provenance, rest3) = >>=-ok (check_provenance read.provenance) _ rest2 in
    let (_, mappings, done) = >>=-ok (check_mappings path_match read.skill_mappings) _ rest3 in
    let same : read ≡ pc = ground arith in
    subst (Checked path_match) same (preset, actions, provenance, mappings)

-- A configuration that loads names only known response actions; gives every trust tier, mapped or
-- not, a known preset; and each of its skill mappings has a pattern, a skill and a well-formed glob.
pub load_policy_config-valid :
    (unmarshal : Text → Outcome PolicyConfig) (path_match : Text → Text → Outcome Bool)
    (yaml : Text) (pc : PolicyConfig)
    → load_policy_config unmarshal path_match yaml ≡ ok pc
    → ((violation action : Text)
        → lookup violation pc.response_actions ≡ some action
        → one_of (to_lower action) valid_actions ≡ true)
      × ((tier : Text) → one_of (provenance_preset_for pc tier) valid_presets ≡ true)
      × All (IsUsable path_match) pc.skill_mappings
load_policy_config-valid unmarshal path_match yaml pc h =
    let (preset, actions, provenance, mappings) = load-checks unmarshal path_match yaml pc h in
    (
      λ violation action e. check_actions-lookup pc.response_actions violation action actions e,
      λ tier. provenance_preset_for-valid pc tier provenance,
      check_mappings-All path_match pc.skill_mappings mappings,
    )
