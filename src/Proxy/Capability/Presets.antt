-- ===== src/Proxy/Capability/Presets.antt =====
-- Presets of proxy/capability.go: the cache of compiled queries, reloading, and unknown presets.
use skillledger.Base.{
  ◌≡◌, refl, sym, inl, inr, Bool, some, [], arith, if◌then◌else◌, ◌==◌, nat_eq, Bool-cases,
  Option-cases, Text, codes, text_eq, text_eq→≡, text_eq_iff, text_eq_inst, ok, err, Outcome-cases,
  >>=-ok, Dict, lookup, put, lookup-put, lookup-put_self, List, ◌∷◌,
}
use mathlib.Core.Path.{subst}
use skillledger.Manifest.{Manifest}
use skillledger.Proxy.PolicyConfig.{PolicyConfig, one_of, check_preset}
use skillledger.Proxy.Capability.{
  Query, Opa, RuntimeEvaluator, get_runtime, compile_preset, new_runtime_evaluator, resolve_preset,
  reload_policy, RuntimeAction, evaluate, evaluate_manifest, observe,
}

ok-injective : {a b : RuntimeEvaluator} → ok a ≡ ok b → a ≡ b
ok-injective h = cc

-- Every query at hand is the one that its preset compiles to.
pub record Coherent (o : Opa) (re : RuntimeEvaluator) : Type 0 where
  pub current : compile_preset o re.default_preset re.extra_modules ≡ ok re.prepared
  pub cached :
      (name : Text) (q : Query)
      → lookup name re.preset_cache ≡ some q
      → compile_preset o name re.extra_modules ≡ ok q

put-cached :
    (o : Opa) (modules : Dict Text) (name : Text) (q : Query) (cache : Dict Query)
    → compile_preset o name modules ≡ ok q
    → ((k : Text) (q' : Query) → lookup k cache ≡ some q' → compile_preset o k modules ≡ ok q')
    → (k : Text) (q' : Query) → lookup k (put name q cache) ≡ some q'
    → compile_preset o k modules ≡ ok q'
put-cached o modules name q cache made before k q' e = elim (Bool-cases (name == k)) [
  | inl same ↦
      let e' : some q ≡ some q' = ground (arith, lookup-put name k q cache) in
      rw (← text_eq→≡ name k same) (ground (arith, e', made))
  | inr other ↦ before k q' (ground (arith, lookup-put name k q cache))
]

-- resolvePreset is compilation: the cache and the prepared query change nothing but the work, and
-- the default preset stands for the empty name.
pub resolve_preset-eq :
    (o : Opa) (name : Text) (re : RuntimeEvaluator)
    → Coherent o re
    → ((resolve_preset o name re).0
        ≡ compile_preset o (if text_eq name [] then re.default_preset else name) re.extra_modules)
      × Coherent o (resolve_preset o name re).1
unfolding resolve_preset
resolve_preset-eq o name re h = elim (Bool-cases (text_eq name [])) [
  | inl empty ↦ rw (empty, resolve_preset) (sym h.current, h)
  | inr named ↦ elim (Option-cases (lookup name re.preset_cache)) [
    | inr (q, e) ↦ rw (named, resolve_preset) (rw e (sym (h.cached name q e), h))
    | inl e ↦ elim (Outcome-cases (compile_preset o name re.extra_modules)) [
      | inr (msg, f) ↦ rw (named, resolve_preset) (rw e (rw f (refl, h)))
      | inl (q, f) ↦
          rw (named, resolve_preset)
            (rw e (
              rw f (
                refl,
                record {
                  current = h.current;
                  cached = put-cached o re.extra_modules name q re.preset_cache f h.cached;
                },
              )))
    ]
  ]
]

-- A new evaluator is coherent: its prepared query and the one in its cache are what its preset
-- compiles to.
pub new-Coherent :
    (o : Opa) (name : Text) (ms : Dict Manifest) (config : PolicyConfig) (observed : Bool)
    (modules : Dict Text) (re : RuntimeEvaluator)
    → new_runtime_evaluator o name ms config observed modules ≡ ok re
    → Coherent o re
unfolding new_runtime_evaluator lookup
new-Coherent o name ms config observed modules re h =
    let (q, made, built) = >>=-ok (compile_preset o name modules) _ h in
    subst (Coherent o) (ok-injective built)
      (record { current = made; cached = λ k q' e. ground (arith, made, text_eq_iff name k) })

-- The default query is q, and so is the one that is cached for the preset.
record Serves (name : Text) (q : Query) (re : RuntimeEvaluator) : Type 0 where
  prepared_is : re.prepared ≡ q
  cached_is : lookup name re.preset_cache ≡ some q

resolve_preset-Serves :
    (o : Opa) (name other : Text) (q : Query) (re : RuntimeEvaluator)
    → Serves name q re
    → Serves name q (resolve_preset o other re).1
unfolding resolve_preset
resolve_preset-Serves o name other q re h = elim (Bool-cases (text_eq other [])) [
  | inl empty ↦ rw (empty, resolve_preset) h
  | inr named ↦ elim (Option-cases (lookup other re.preset_cache)) [
    | inr (q', e) ↦ rw (named, resolve_preset) (rw e h)
    | inl e ↦ elim (Outcome-cases (compile_preset o other re.extra_modules)) [
      | inr (msg, f) ↦ rw (named, resolve_preset) (rw e (rw f h))
      | inl (q', f) ↦
          rw (named, resolve_preset)
            (rw e (
              rw f (record {
                prepared_is = h.prepared_is;
                cached_is = ground (
                  arith,
                  e,
                  h.cached_is,
                  lookup-put other name q' re.preset_cache,
                  text_eq_iff other name,
                );
              })))
    ]
  ]
]

evaluate-Serves :
    (o : Opa) (action : RuntimeAction) (tier override name : Text) (q : Query)
    (re : RuntimeEvaluator)
    → Serves name q re
    → Serves name q (evaluate o action tier override re).1
unfolding evaluate evaluate_manifest observe
evaluate-Serves o action tier override name q re h =
    let tiered = record action { trust_tier = tier } in
    let seen : Serves name q (observe tiered re) = record {
      prepared_is = h.prepared_is;
      cached_is = h.cached_is;
    } in
    elim (Option-cases (lookup action.skill_id re.manifests)) [
      | inl e ↦ rw (evaluate, e) seen
      | inr (m, e) ↦ elim (Outcome-cases (resolve_preset o override (observe tiered re)).0) [
        | inl (q', f) ↦
            rw (evaluate, e, evaluate_manifest, f)
              (resolve_preset-Serves o name override q (observe tiered re) seen)
        | inr (msg, f) ↦
            rw (evaluate, e, evaluate_manifest, f)
              (resolve_preset-Serves o name override q (observe tiered re) seen)
      ]
    ]

-- The evaluator after some evaluations: each an action with its tier and preset override.
unfoldable pub evaluate_all :
    Opa → List (RuntimeAction × Text × Text) → RuntimeEvaluator → RuntimeEvaluator
evaluate_all o [] re = re
evaluate_all o ((action, tier, override) ∷ es) re =
    evaluate_all o es (evaluate o action tier override re).1

evaluate_all-Serves :
    (o : Opa) (es : List (RuntimeAction × Text × Text)) (name : Text) (q : Query)
    (re : RuntimeEvaluator)
    → Serves name q re
    → Serves name q (evaluate_all o es re)
unfolding evaluate_all
evaluate_all-Serves o [] name q re h = h
evaluate_all-Serves o ((action, tier, override) ∷ es) name q re h =
    evaluate_all-Serves o es name q _ (evaluate-Serves o action tier override name q re h)

Serves-resolve_preset :
    (o : Opa) (name : Text) (q : Query) (re : RuntimeEvaluator)
    → Serves name q re
    → ((resolve_preset o [] re).0 ≡ ok q) × ((resolve_preset o name re).0 ≡ ok q)
unfolding resolve_preset text_eq
Serves-resolve_preset o name q re h =
    (ground (arith, h.prepared_is), ground (arith, h.prepared_is, h.cached_is))

reloaded :
    (o : Opa) (name : Text) (modules : Dict Text) (re : RuntimeEvaluator) (q : Query)
    → compile_preset o name modules ≡ ok q
    → Serves name q (record re {
      prepared = q;
      default_preset = name;
      preset_cache = put name q re.preset_cache;
    })
reloaded o name modules re q k = record {
  prepared_is = refl;
  cached_is = lookup-put_self name q re.preset_cache;
}

-- A reload with any extra modules. If the preset compiles with them, the reload succeeds, and after
-- any evaluations that follow, the default preset and the preset by its name still give exactly that
-- query. If it does not compile, the reload fails with the error and changes nothing.
pub reload_policy-switches :
    (o : Opa) (name : Text) (modules : Dict Text) (re : RuntimeEvaluator)
    (es : List (RuntimeAction × Text × Text))
    → let (result, re') = reload_policy o name modules re in
      ((q : Query)
        → compile_preset o name modules ≡ ok q
        → (result ≡ ok tt)
          × ((resolve_preset o [] (evaluate_all o es re')).0 ≡ ok q)
          × ((resolve_preset o name (evaluate_all o es re')).0 ≡ ok q))
      × ((e : Text) → compile_preset o name modules ≡ err e → (result ≡ err e) × (re' ≡ re))
unfolding reload_policy
reload_policy-switches o name modules re es = (
  λ q k.
      rw (reload_policy, k)
        (let (default_, named) =
            Serves-resolve_preset o name q _
              (evaluate_all-Serves o es name q _ (reloaded o name modules re q k)) in
          (refl, default_, named)),
  λ e k. rw (reload_policy, k) (refl, refl),
)

-- A reload with the modules that the evaluator has keeps it coherent.
pub reload_policy-Coherent :
    (o : Opa) (name : Text) (re : RuntimeEvaluator)
    → Coherent o re
    → Coherent o (reload_policy o name re.extra_modules re).1
unfolding reload_policy
reload_policy-Coherent o name re h = elim (Outcome-cases (compile_preset o name re.extra_modules)) [
  | inr (msg, f) ↦ rw (f, reload_policy) h
  | inl (q, f) ↦
      rw (f, reload_policy)
        (record {
          current = f;
          cached = put-cached o re.extra_modules name q re.preset_cache f h.cached;
        })
]

-- "block_all" is a preset that the configuration accepts, and no runtime preset of that name
-- exists: for a configuration with it no evaluator can be built, and the proxy runs without
-- capability checks; as an override it blocks, since it cannot be loaded.
pub block_all_no_evaluator :
    (o : Opa) (ms : Dict Manifest) (config : PolicyConfig) (observed : Bool) (modules : Dict Text)
    → config.preset ≡ codes "block_all"
    → (check_preset config.preset ≡ ok tt)
      × (e : Text) × (new_runtime_evaluator o config.preset ms config observed modules ≡ err e)
unfolding new_runtime_evaluator compile_preset get_runtime one_of text_eq
block_all_no_evaluator o ms config observed modules h = rw h (refl, _, refl)
