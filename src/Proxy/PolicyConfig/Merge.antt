-- ===== src/Proxy/PolicyConfig/Merge.antt =====
-- MergePolicyConfigs of proxy/policy_config.go: layering a configuration over another.
use skillledger.Base.{
  ◌≡◌, refl, ◌∙◌, ◌≢◌, ◌⊎◌, inl, inr, Option, none, some, [], ◌∷◌, arith, Option-cases, Text, codes,
  text_eq_iff, to_lower, Dict, lookup, lookup-put,
}
use skillledger.Proxy.Scanner.{allow, block, warn, log}
use skillledger.Proxy.PolicyConfig.{
  PolicyConfig, put_all, merge_policy_configs, provenance_preset_for, action_for,
}

abbrev pub or_lookup : Option Text → Option Text → Option Text
or_lookup none o = o
or_lookup (some v) o = some v

lookup-put_all :
    (k : Text) (extra m : Dict Text)
    → lookup k (put_all extra m) ≡ or_lookup (lookup k extra) (lookup k m)
unfolding put_all lookup
lookup-put_all k [] m = refl
lookup-put_all k ((j, v) ∷ extra) m =
    lookup-put j k v (put_all extra m) ∙ ground (arith, lookup-put_all k extra m)

lookup-copy : (k : Text) (m : Dict Text) → lookup k (put_all m []) ≡ lookup k m
unfolding lookup
lookup-copy k m = lookup-put_all k m [] ∙ ground arith

-- Per violation type and per trust tier the override decides if it has an entry, and the base
-- decides if it has none: entries are replaced one by one, never the whole map.
pub merge_layers :
    (base override : PolicyConfig) (k : Text)
    → (action_for (merge_policy_configs base override) k
        ≡ elim (lookup k override.response_actions) [
          | some a ↦ action_for override k
          | none ↦ action_for base k
        ])
      × (provenance_preset_for (merge_policy_configs base override) k
          ≡ elim (lookup k override.provenance) [
            | some p ↦ p
            | none ↦ provenance_preset_for base k
          ])
unfolding merge_policy_configs action_for provenance_preset_for
merge_layers base override k = (
  ground (
    arith,
    lookup-put_all k override.response_actions (put_all base.response_actions []),
    lookup-copy k base.response_actions,
  ),
  ground (
    arith,
    lookup-put_all k override.provenance (put_all base.provenance []),
    lookup-copy k base.provenance,
  ),
)

-- ActionFor fails closed: it never allows, and anything milder than a block was configured for this
-- very violation type, by a spelling of "warn" or "log".
pub action_for_fail_closed :
    (pc : PolicyConfig) (violation : Text)
    → (action_for pc violation ≢ allow)
      × (action_for pc violation ≢ block
          → (action : Text) × (lookup violation pc.response_actions ≡ some action)
            × (((to_lower action ≡ codes "warn") × (action_for pc violation ≡ warn))
                ⊎ ((to_lower action ≡ codes "log") × (action_for pc violation ≡ log))))
unfolding action_for
action_for_fail_closed pc violation = (
  ground arith,
  λ ne. elim (Option-cases (lookup violation pc.response_actions)) [
    | inl e ↦ absurd (ground arith)
    | inr (action, e) ↦ (
      action,
      e,
      ground (
        arith,
        text_eq_iff (to_lower action) (codes "warn"),
        text_eq_iff (to_lower action) (codes "log"),
      ),
    )
  ],
)
