-- ===== src/Policy/Tests.antt =====
-- Runs of policy/eval, and its theorem at a concrete input.
use skillledger.Base.{
  ◌≡◌, refl, ◌≢◌, true, some, [], ◌∷◌, codes, text_eq, text_eq_iff, ok, sort_strings,
}
use skillledger.Rego.{
  Value, Values, Fields, ResultSet, first_object, get_string, get_field, any_slice_to_strings,
  field_names,
}
use skillledger.Policy.{PolicyInput, PolicyResult, parse_result, evaluate, evaluate-decision, deny}

abbrev input : PolicyInput
input = record {
  capabilities = record { filesystem = []; network = []; secrets = []; tools = [] };
  signed_by = codes "dev";
  issuer = codes "ca";
}

abbrev two_warnings : Values
two_warnings = Values.cons (Value.string (codes "w")) (Values.cons Value.other Values.nil)

abbrev object_ : Fields
object_ = Fields.field (codes "decision") (Value.string (codes "warn")) (
    Fields.field (codes "warnings") (Value.array two_warnings) (
      Fields.field deny
        (Value.object
          (Fields.field (codes "z") Value.other (Fields.field (codes "a") Value.other Fields.end)))
        Fields.end))

abbrev warn_set : ResultSet
warn_set = (Value.object object_ ∷ []) ∷ []

abbrev warned : PolicyResult
warned = record {
  decision = codes "warn";
  violations = some (codes "a" ∷ codes "z" ∷ []);
  warnings = some (codes "w" ∷ []);
}

parsed : evaluate (λ i. ok warn_set) input ≡ ok warned
unfolding evaluate first_object get_string get_field text_eq sort_strings any_slice_to_strings
    field_names
parsed = refl

empty_denies : (parse_result []).decision ≡ deny
unfolding parse_result first_object
empty_denies = refl

not_deny : warned.decision ≢ deny
unfolding text_eq
not_deny h =
    let same : text_eq (codes "warn") deny ≡ true = (text_eq_iff (codes "warn") deny).1 h in cc

evaluate-decision_example :
    (rs : ResultSet) × (fs : Fields) × (ok warn_set ≡ ok rs)
    × (first_object rs ≡ some fs)
    × (get_string (codes "decision") fs ≡ some warned.decision)
evaluate-decision_example = evaluate-decision (λ i. ok warn_set) input warned parsed not_deny
