-- ===== src/Verify/Types.antt =====
-- The records of cli/internal/verify (pipeline.go), cli/internal/builder (lockfile.go) and
-- cli/internal/signer (verifier.go). The file system, SHA-256, JSON and the three injected
-- interfaces are fields, so arguments; opening a file and reading it through are two results.
use skillledger.Base.{ℕ, Bool, true, false, Option, List, [], Text, Outcome}
use skillledger.Manifest.{Codec}
use skillledger.Tlog.{LookupResponse}
use skillledger.Policy.{PolicyInput, PolicyResult}

-- builder.Lockfile, the fields that are read.
pub record Lockfile : Type 0 where
  pub artifact_id : Text
  pub sha256 : Text

-- signer.VerifyResult
pub record Signer : Type 0 where
  pub signer_identity : Text
  pub issuer : Text

pub record World : Type 0 where
  pub codec : Codec
  pub dir : Text → Text
  pub join : Text → Text → Text
  pub read_file : Text → Outcome Text
  pub open_file : Text → Outcome (Outcome Text)
  pub file_size : Text → Outcome ℕ
  pub unmarshal_lockfile : Text → Outcome Lockfile
  pub marshal_leaf : Text → Text → Text → Outcome Text  -- artifact id, hash, content address
  pub hash : Text → Text
  pub hex : Text → Text
  pub show : ℕ → Text

-- Pipeline; the proof verifier maps an index and leaf data to an error or nil.
pub record Pipeline : Type 0 where
  pub verify_bundle : Text → Text → Outcome Signer
  pub lookup_entry : Text → Outcome LookupResponse
  pub evaluate : PolicyInput → Outcome PolicyResult
  pub skip_tlog : Bool
  pub proof_verifier : Option (ℕ → Text → Outcome (Unit {0}))

pub record VerifyInput : Type 0 where
  pub artifact_path : Text
  pub bundle_path : Text
  pub lockfile_path : Text
  pub manifest_path : Text
  pub skip_tlog : Bool

pub record StepResult : Type 0 where
  pub name : Text
  pub passed : Bool
  pub detail : Text
  pub error : Text

pub record VerifyResult : Type 0 where
  pub passed : Bool
  pub steps : List StepResult
  pub violations : List Text
  pub warnings : List Text

abbrev pub pass : Text → Text → StepResult
pass name detail = record { name = name; passed = true; detail = detail; error = [] }

abbrev pub refuse : Text → Text → StepResult
refuse name e = record { name = name; passed = false; detail = []; error = e }
