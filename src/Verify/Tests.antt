-- ===== src/Verify/Tests.antt =====
-- Runs of Pipeline.Verify with small samples of everything that it calls, and its theorems on them.
use skillledger.Base.{
  ◌≡◌, refl, Bool, true, false, ◌||◌, none, some, [], ◌∷◌, length, Text, codes, text_eq, Outcome,
  ok, err,
}
use skillledger.Manifest.{Manifest, Codec, Capabilities, parse_and_validate, no_source}
use skillledger.Verify.Types.{Lockfile, Signer, World, Pipeline, VerifyInput, VerifyResult}
use skillledger.Verify.Pipeline.{hash_stage, verify}
use skillledger.Verify.Sound.{Trusted, verify_sound}
use skillledger.Verify.Order.{Stops}
use skillledger.Verify.Trace.{verify-Stops, all_steps}
use skillledger.Verify.Warnings.{verify-warnings, Reports, skip_warnings}

abbrev caps : Capabilities
caps = record { filesystem = []; network = []; secrets = []; tools = [] }

abbrev sample_manifest : Manifest
sample_manifest = record {
  skill_ledger = 1;
  id = codes "skill";
  version = codes "1.0";
  kind = codes "skill";
  source = no_source;
  capabilities = caps;
}

abbrev codec : Codec
codec = record {
  yaml_raw = ok;
  json_marshal = ok;
  validator = ok (λ json. none);
  yaml_manifest = λ yaml. ok sample_manifest;
  show = λ n. n ∷ [];
}

abbrev lockfile : Lockfile
lockfile = record { artifact_id = codes "skill"; sha256 = codes "a.tgz" }

-- Every file holds its own name, and the hash is the identity.
abbrev world : World
world = record {
  codec = codec;
  dir = λ path. path;
  join = λ d name. name;
  read_file = ok;
  open_file = λ path. ok (ok path);
  file_size = λ path. ok (length path);
  unmarshal_lockfile = λ bytes. ok lockfile;
  marshal_leaf = λ id sha address. ok address;
  hash = λ bytes. bytes;
  hex = λ bytes. bytes;
  show = λ n. n ∷ [];
}

abbrev signer : Signer
signer = record { signer_identity = codes "dev"; issuer = codes "ca" }

abbrev pipeline : Outcome Signer → Text → Pipeline
pipeline bundle decision = record {
  verify_bundle = λ path digest. bundle;
  lookup_entry = λ id. ok (record { sha256 = codes "a.tgz"; log_index = 7 });
  evaluate = λ input. ok (record {
    decision = decision;
    violations = some (codes "v" ∷ []);
    warnings = some (codes "w" ∷ []);
  });
  skip_tlog = false;
  proof_verifier = some (λ index leaf. ok tt);
}

abbrev good : Pipeline
good = pipeline (ok signer) (codes "allow")

abbrev warning : Pipeline
warning = pipeline (ok signer) (codes "warn")

abbrev unsigned : Text → Pipeline
unsigned decision = pipeline (err (codes "no bundle")) decision

abbrev input : Text → Bool → VerifyInput
input artifact skip = record {
  artifact_path = artifact;
  bundle_path = [];
  lockfile_path = [];
  manifest_path = [];
  skip_tlog = skip;
}

abbrev artifact : VerifyInput
artifact = input (codes "a.tgz") false

abbrev unlogged : VerifyInput
unlogged = input (codes "a.tgz") true

-- The result of Verify, which cannot fail in the sample world.
abbrev result : Pipeline → VerifyInput → VerifyResult
result p i = hash_stage world p i lockfile

runs : (p : Pipeline) (i : VerifyInput) → verify world p i ≡ ok (result p i)
unfolding verify
runs p i = refl

good_passes : (result good artifact).passed ≡ true
unfolding hash_stage text_eq parse_and_validate
good_passes = refl

denied_fails : (result (pipeline (ok signer) (codes "deny")) artifact).passed ≡ false
unfolding hash_stage text_eq parse_and_validate
denied_fails = refl

tampered_fails : (result good (input (codes "b.tgz") false)).passed ≡ false
unfolding hash_stage text_eq
tampered_fails = refl

warned_passes : (result warning unlogged).passed ≡ true
unfolding hash_stage text_eq parse_and_validate
warned_passes = refl

-- The skip of the log is not among the warnings.
warned_unlogged : (result warning unlogged).warnings ≡ codes "w" ∷ []
unfolding hash_stage text_eq parse_and_validate
warned_unlogged = refl

verify_sound_example : Trusted world good artifact
verify_sound_example =
    verify_sound world good artifact (result good artifact) (runs good artifact) good_passes

verify-Stops_example : Stops [] all_steps (result good artifact)
verify-Stops_example = verify-Stops world good artifact (result good artifact) (runs good artifact)

verify-warnings_example :
    (s : Signer) × Reports warning s
      (skip_warnings (unlogged.skip_tlog || warning.skip_tlog))
      (result warning unlogged)
verify-warnings_example =
    verify-warnings world warning unlogged (result warning unlogged) (runs warning unlogged)
      warned_passes

abbrev yaml : Text
yaml = codes "id: skill"

parses : (parse_and_validate codec yaml).manifest ≡ some sample_manifest
unfolding parse_and_validate
parses = refl

parses_clean : (parse_and_validate codec yaml).error ≡ none
unfolding parse_and_validate
parses_clean = refl
