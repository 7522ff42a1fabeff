-- ===== src/Policy.antt =====
-- cli/internal/policy/eval: the install-time policy evaluator. OPA's Eval is an argument.
pub mod Dsl
mod Tests
use skillledger.Base.{
  sym, ap, ◌∙◌, refl, >>=-ok, wrap-ok, ◌≡◌, ◌≢◌, Option, none, some, List, Text, codes, Outcome, ok,
  ◌>>=◌, wrap, sort_strings,
}
use skillledger.Manifest.{Capabilities}
use skillledger.Rego.{
  array, object, Fields, ResultSet, get_field, any_slice_to_strings, field_names, first_object,
  get_string,
}

-- The input of a policy: what verifyPolicy of cli/internal/verify builds. A missing list is empty.
pub record PolicyInput : Type 0 where
  pub capabilities : Capabilities
  pub signed_by : Text
  pub issuer : Text

-- A slice that may be nil is an option.
pub record PolicyResult : Type 0 where
  pub decision : Text
  pub violations : Option (List Text)
  pub warnings : Option (List Text)

abbrev pub deny : Text
deny = codes "deny"

unfoldable pub extract_string_set : Fields → Text → Option (List Text)
extract_string_set fs key = elim (get_field key fs) [
  | none ↦ none
  | some v ↦ elim v [
    | array vs ↦ some (any_slice_to_strings vs)
    | object gs ↦ some (sort_strings (field_names gs))
    | _ ↦ none
  ]
]

unfoldable pub decision_or_deny : Option Text → Text
decision_or_deny none = deny
decision_or_deny (some d) = d

unfoldable pub result_of : Option Fields → PolicyResult
unfolding extract_string_set decision_or_deny
result_of none = record { decision = deny; violations = none; warnings = none }
result_of (some fs) = record {
  decision = decision_or_deny (get_string (codes "decision") fs);
  violations = extract_string_set fs deny;
  warnings = extract_string_set fs (codes "warnings");
}

unfoldable pub parse_result : ResultSet → PolicyResult
unfolding result_of
parse_result rs = result_of (first_object rs)

-- Evaluator.Evaluate
unfoldable pub evaluate : (PolicyInput → Outcome ResultSet) → PolicyInput → Outcome PolicyResult
unfolding parse_result
evaluate eval input = do rs ← wrap (codes "evaluating policy") (eval input); ok (parse_result rs)

decision_or_deny-ne : (o : Option Text) → decision_or_deny o ≢ deny → o ≡ some (decision_or_deny o)
unfolding decision_or_deny
decision_or_deny-ne none ne = absurd (ne refl)
decision_or_deny-ne (some d) ne = refl

result_of-decision :
    (o : Option Fields)
    → (result_of o).decision ≢ deny
    → (fs : Fields) × (o ≡ some fs)
      × (get_string (codes "decision") fs ≡ some (result_of o).decision)
unfolding result_of
result_of-decision none ne = absurd (ne refl)
result_of-decision (some fs) ne = (fs, refl, decision_or_deny-ne _ ne)

ok-injective : {a b : PolicyResult} → ok a ≡ ok b → a ≡ b
ok-injective h = cc

-- Fail closed: a decision other than "deny" is reported only if OPA returned, without an error, an
-- object as the first value of its first result, whose "decision" is that very string.
pub evaluate-decision :
    (eval : PolicyInput → Outcome ResultSet) (input : PolicyInput) (r : PolicyResult)
    → evaluate eval input ≡ ok r
    → r.decision ≢ deny
    → (rs : ResultSet) × (fs : Fields) × (eval input ≡ ok rs)
      × (first_object rs ≡ some fs)
      × (get_string (codes "decision") fs ≡ some r.decision)
unfolding evaluate
evaluate-decision eval input r h ne =
    let (rs, returned, parsed) = >>=-ok (wrap (codes "evaluating policy") (eval input)) _ h in
    let same : parse_result rs ≡ r = ok-injective parsed in
    let (fs, found, said) =
      result_of-decision (first_object rs)
        (λ e. ne (ap (λ (x : PolicyResult). x.decision) (sym same) ∙ e)) in
    (
      rs,
      fs,
      wrap-ok (codes "evaluating policy") (eval input) returned,
      found,
      said ∙ ap (λ (x : PolicyResult). some x.decision) same,
    )
