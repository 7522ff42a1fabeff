-- ===== src/Manifest.antt =====
-- cli/internal/manifest: the manifest record and ParseAndValidate. The YAML and JSON codecs and the
-- schema check of the jsonschema library are arguments; a parsed YAML map is opaque bytes.
use skillledger.Base.{
  ℕ, ◌≡◌, Option, none, some, List, [], ◌++◌, arith, length, Text, codes, Outcome, ok, err,
}

pub record Capabilities : Type 0 where
  pub filesystem : List Text
  pub network : List Text
  pub secrets : List Text
  pub tools : List Text

pub record Source : Type 0 where
  pub repository : Text
  pub ref : Text
  pub directory : Text

-- Source{}
abbrev pub no_source : Source
no_source = record { repository = []; ref = []; directory = [] }

-- The fields of the manifest that the modelled code reads or writes.
pub record Manifest : Type 0 where
  pub skill_ledger : ℕ
  pub id : Text
  pub version : Text
  pub kind : Text
  pub source : Source
  pub capabilities : Capabilities

pub record ValidationError : Type 0 where
  pub path : Text
  pub message : Text

pub record Codec : Type 0 where
  pub yaml_raw : Text → Outcome Text
  pub json_marshal : Text → Outcome Text
  -- getValidator; Validate gives `none` for valid data, else what extractValidationErrors collects
  pub validator : Outcome (Text → Option (List ValidationError))
  pub yaml_manifest : Text → Outcome Manifest
  pub show : ℕ → Text

-- The three results of ParseAndValidate: manifest, validation errors, error.
pub record Parsed : Type 0 where
  pub manifest : Option Manifest
  pub validation_errors : List ValidationError
  pub error : Option Text

abbrev fails : Text → Text → Parsed
fails what e = record {
  manifest = none;
  validation_errors = [];
  error = some (what ++ (codes ": " ++ e));
}

unfoldable pub validated : Codec → Text → Option (List ValidationError) → Parsed
validated c yaml (some errors) = record {
  manifest = none;
  validation_errors = errors;
  error =
      some
        (codes "schema validation failed with " ++ (c.show (length errors) ++ codes " error(s)"));
}
validated c yaml none = elim (c.yaml_manifest yaml) [
  | err e ↦ fails (codes "manifest parse error") e
  | ok m ↦ record { manifest = some m; validation_errors = []; error = none }
]

unfoldable pub parse_and_validate : Codec → Text → Parsed
unfolding validated
parse_and_validate c yaml = elim (c.yaml_raw yaml) [
  | err e ↦ fails (codes "YAML parse error") e
  | ok raw ↦ elim (c.json_marshal raw) [
    | err e ↦ fails (codes "JSON marshal error") e
    | ok json ↦ elim c.validator [
      | err e ↦ fails (codes "schema validator init error") e
      | ok validate ↦ validated c yaml (validate json)
    ]
  ]
]

-- A manifest is returned exactly without an error, and then without validation errors; the typed
-- parse is reached only for data that the schema accepts.
pub parse_and_validate-ok :
    (c : Codec) (yaml : Text) (m : Manifest)
    → (parse_and_validate c yaml).error ≡ none
    → (parse_and_validate c yaml).manifest ≡ some m
    → ((parse_and_validate c yaml).validation_errors ≡ []) × (c.yaml_manifest yaml ≡ ok m)
unfolding parse_and_validate
parse_and_validate-ok c yaml m h k = ground arith
