-- ===== src/Rego.antt =====
-- What OPA returns: Go values of type `any`, and result sets. Numbers, Booleans and null are read by
-- nothing, and are one constructor.
use skillledger.Base.{Option, none, some, List, [], ◌∷◌, if◌then◌else◌, Text, text_eq}

mutual
  pub data Value : Type 0 where
    other : Value
    string : Text → Value
    array : Values → Value
    object : Fields → Value

  pub data Values : Type 0 where
    nil : Values
    cons : Value → Values → Values

  pub data Fields : Type 0 where
    end : Fields
    field : Text → Value → Fields → Fields

-- The values of the expressions of each result.
abbrev pub ResultSet : Type 0
ResultSet = List (List Value)

unfoldable pub get_field : Text → Fields → Option Value
get_field k end = none
get_field k (field j v fs) = if text_eq j k then some v else get_field k fs

-- The strings among the items.
unfoldable pub any_slice_to_strings : Values → List Text
any_slice_to_strings nil = []
any_slice_to_strings (cons (string s) vs) = s ∷ any_slice_to_strings vs
any_slice_to_strings (cons v vs) = any_slice_to_strings vs

unfoldable pub field_names : Fields → List Text
field_names end = []
field_names (field k v fs) = k ∷ field_names fs

-- rs[0].Expressions[0].Value.(map[string]any)
unfoldable pub first_object : ResultSet → Option Fields
first_object ((object fs ∷ vs) ∷ rs) = some fs
first_object _ = none

-- val[key].(string)
unfoldable pub get_string : Text → Fields → Option Text
unfolding get_field
get_string k fs = elim (get_field k fs) [
  | none ↦ none
  | some v ↦ elim v [ string s ↦ some s | _ ↦ none ]
]
