-- ===== src/Verify/Checks.antt =====
-- The single checks: steps.go of cli/internal/verify, and ReadLockfile of cli/internal/builder.
use skillledger.Base.{
  ℕ, false, Option, none, some, List, [], ◌++◌, if◌then◌else◌, length, Text, codes, text_eq, join,
  Outcome, ok, err, ◌>>=◌, wrap,
}
use skillledger.Manifest.{Capabilities}
use skillledger.Policy.{PolicyResult}
use skillledger.Verify.Types.{Lockfile, Signer, World, Pipeline, StepResult, pass, refuse}

-- builder.ReadLockfile
unfoldable pub read_lockfile : World → Text → Outcome Lockfile
read_lockfile w path = do
  bytes ← wrap (codes "reading lockfile") (w.read_file path)
  wrap (codes "reading lockfile") (w.unmarshal_lockfile bytes)

-- computeAndCompareHash
unfoldable pub compute_and_compare_hash : World → Text → Text → Outcome Text
compute_and_compare_hash w path expected = do
  opened ← wrap (codes "opening artifact") (w.open_file path)
  bytes ← wrap (codes "computing artifact hash") opened
  if text_eq (w.hex (w.hash bytes)) expected
      then ok (w.hash bytes)
      else err (
          codes "artifact hash mismatch: expected "
          ++ (expected ++ (codes ", got " ++ w.hex (w.hash bytes))))

-- The first result of a step is its StepResult, the second what the code returns beside it.
-- Pipeline.verifySignature
unfoldable pub verify_signature : Pipeline → Text → Text → StepResult × Outcome Signer
verify_signature p bundle digest = elim (p.verify_bundle bundle digest) [
  | err e ↦ (refuse (codes "signature") e, err e)
  | ok s ↦ (
    pass (codes "signature") (
        codes "Signed by "
        ++ (s.signer_identity ++ (codes " (issuer: " ++ (s.issuer ++ codes ")")))),
    ok s,
  )
]

abbrev pub tlog_step : Text
tlog_step = codes "transparency-log"

abbrev pub found_at : World → ℕ → Text
found_at w index = codes "Found at log index " ++ w.show index

-- The Merkle check of verifyTlog.
unfoldable pub verify_merkle :
    World → (ℕ → Text → Outcome (Unit {0})) → Text → Text → ℕ → StepResult × Outcome (Unit {0})
verify_merkle w verify_inclusion artifact_id expected index =
    elim (w.marshal_leaf artifact_id expected (codes "sha256-" ++ expected)) [
      | err e ↦ (
        refuse tlog_step (codes "marshaling leaf data for proof: " ++ e),
        err (codes "marshaling leaf data: " ++ e),
      )
      | ok leaf ↦ elim (verify_inclusion index leaf) [
        | err e ↦ (refuse tlog_step (codes "Merkle proof verification failed: " ++ e), err e)
        | ok _ ↦ (pass tlog_step (found_at w index ++ codes " (Merkle proof verified)"), ok tt)
      ]
    ]

abbrev pub tlog_mismatch : Text → Text → Text
tlog_mismatch logged expected =
    codes "SHA-256 mismatch between log entry and lockfile: log="
    ++ (logged ++ (codes ", lockfile=" ++ expected))

-- Pipeline.verifyTlog
unfoldable pub verify_tlog : World → Pipeline → Text → Text → StepResult × Outcome (Unit {0})
unfolding verify_merkle
verify_tlog w p artifact_id expected = elim (p.lookup_entry artifact_id) [
  | err e ↦ (refuse tlog_step e, err e)
  | ok entry ↦
      if text_eq entry.sha256 expected
      then elim p.proof_verifier [
        | none ↦ (pass tlog_step (found_at w entry.log_index), ok tt)
        | some check ↦ verify_merkle w check artifact_id expected entry.log_index
      ]
      else (
        refuse tlog_step (tlog_mismatch entry.sha256 expected),
        err (tlog_mismatch entry.sha256 expected),
      )
]

pub record PolicyStep : Type 0 where
  pub step : StepResult
  pub violations : Option (List Text)
  pub warnings : Option (List Text)
  pub error : Option Text

abbrev pub policy_step : Text
policy_step = codes "policy"

-- len of a slice that may be nil
abbrev pub items : Option (List Text) → List Text
items none = []
items (some l) = l

abbrev pub denied : World → PolicyResult → PolicyStep
denied w r = record {
  step = record {
    name = policy_step;
    passed = false;
    detail =
        codes "Denied with " ++ (w.show (length (items r.violations)) ++ codes " violation(s)");
    error = join (codes "; ") (items r.violations);
  };
  violations = r.violations;
  warnings = none;
  error = some (codes "policy denied: " ++ join (codes "; ") (items r.violations));
}

abbrev pub warned : World → PolicyResult → PolicyStep
warned w r = record {
  step =
      pass policy_step
        (codes "Passed with " ++ (w.show (length (items r.warnings)) ++ codes " warning(s)"));
  violations = none;
  warnings = r.warnings;
  error = none;
}

abbrev pub unknown : Text → PolicyStep
unknown d = record {
  step = refuse policy_step (codes "unknown policy decision: " ++ d);
  violations = none;
  warnings = none;
  error = some (codes "unknown policy decision: " ++ d);
}

-- The switch of verifyPolicy.
unfoldable pub on_decision : World → PolicyResult → PolicyStep
on_decision w r =
    if text_eq r.decision (codes "allow")
    then record {
      step = pass policy_step (codes "All capability checks passed");
      violations = none;
      warnings = none;
      error = none;
    }
    else if text_eq r.decision (codes "warn")
    then warned w r
    else if text_eq r.decision (codes "deny")
    then denied w r
    else unknown r.decision

-- Pipeline.verifyPolicy
unfoldable pub verify_policy : World → Pipeline → Capabilities → Signer → PolicyStep
unfolding on_decision
verify_policy w p caps s =
    elim (p.evaluate
      (record { capabilities = caps; signed_by = s.signer_identity; issuer = s.issuer })) [
        | err e ↦ record {
          step = refuse policy_step e;
          violations = none;
          warnings = none;
          error = some e;
        }
        | ok r ↦ on_decision w r
      ]
