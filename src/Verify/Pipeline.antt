-- ===== src/Verify/Pipeline.antt =====
-- Pipeline.Verify of cli/internal/verify/verify.go, one function for each of its steps.
use skillledger.Base.{
  ℕ, Bool, true, false, ◌||◌, Option, none, some, List, [], ◌∷◌, ◌++◌, ltb, if◌then◌else◌, Text,
  codes, text_eq, Outcome, ok, err, ◌>>=◌, wrap,
}
use skillledger.Manifest.{Parsed, parse_and_validate}
use skillledger.Verify.Types.{
  Lockfile, Signer, World, Pipeline, VerifyInput, StepResult, VerifyResult, pass, refuse,
}
use skillledger.Verify.Checks.{
  read_lockfile, compute_and_compare_hash, verify_signature, tlog_step, verify_tlog, PolicyStep,
  policy_step, verify_policy,
}

-- 1 << 20
abbrev pub max_manifest_size : ℕ
max_manifest_size = 1048576

abbrev pub too_large : World → Text → ℕ → ℕ → Text
too_large w path size max_bytes =
    codes "file "
    ++ (path
        ++ (codes " exceeds size limit ("
            ++ (w.show size ++ (codes " > " ++ (w.show max_bytes ++ codes " bytes)")))))

-- readFileLimited
unfoldable pub read_file_limited : World → Text → ℕ → Outcome Text
read_file_limited w path max_bytes = do
  size ← w.file_size path
  if ltb max_bytes size then err (too_large w path size max_bytes) else w.read_file path

abbrev pub add_step : StepResult → VerifyResult → VerifyResult
add_step s r = record r { steps = r.steps ++ s ∷ [] }

-- A failing step ends the run.
abbrev pub fail_with : StepResult → VerifyResult → VerifyResult
fail_with s r = record r { passed = false; steps = r.steps ++ s ∷ [] }

abbrev pub or_else : Option (List Text) → List Text → List Text
or_else none l = l
or_else (some l') l = l'

-- What Verify does with the results of verifyPolicy.
unfoldable pub with_policy : PolicyStep → VerifyResult → VerifyResult
with_policy s r = record {
  passed = elim s.error [ none ↦ r.passed | some e ↦ false ];
  steps = r.steps ++ s.step ∷ [];
  violations = or_else s.violations r.violations;
  warnings = or_else s.warnings r.warnings;
}

-- Step 3 after the manifest is parsed.
unfoldable pub policy_stage : World → Pipeline → Signer → Parsed → VerifyResult → VerifyResult
unfolding with_policy verify_policy
policy_stage w p s parsed r = elim parsed.error [
  | some e ↦ fail_with (refuse policy_step (codes "parsing manifest: " ++ e)) r
  | none ↦ elim parsed.validation_errors [
    | v ∷ vs ↦ fail_with (refuse policy_step (codes "manifest validation failed: " ++ v.message)) r
    | [] ↦ elim parsed.manifest [
      | none ↦ r  -- not reached: a nil manifest comes with an error
      | some m ↦ with_policy (verify_policy w p m.capabilities s) r
    ]
  ]
]

-- Step 3
unfoldable pub manifest_stage : World → Pipeline → Text → Signer → VerifyResult → VerifyResult
unfolding policy_stage read_file_limited
manifest_stage w p path s r = elim (read_file_limited w path max_manifest_size) [
  | err e ↦ fail_with (refuse policy_step (codes "reading manifest: " ++ e)) r
  | ok bytes ↦ policy_stage w p s (parse_and_validate w.codec bytes) r
]

abbrev pub skip_warning : Text
skip_warning = codes "transparency log verification was skipped via --skip-tlog"

abbrev pub skipped : VerifyResult → VerifyResult
skipped r = record r {
  steps = r.steps ++ pass tlog_step (codes "SKIPPED (--skip-tlog flag set)") ∷ [];
  warnings = r.warnings ++ skip_warning ∷ [];
}

-- Step 2
unfoldable pub tlog_stage :
    World → Pipeline → Bool → Lockfile → Text → Signer → VerifyResult → VerifyResult
unfolding manifest_stage verify_tlog
tlog_stage w p skip lf manifest_path s r =
    if skip
    then manifest_stage w p manifest_path s (skipped r)
    else let (step, result) = verify_tlog w p lf.artifact_id lf.sha256 in
      elim result [
        | err e ↦ fail_with step r
        | ok _ ↦ manifest_stage w p manifest_path s (add_step step r)
      ]

-- Step 1
unfoldable pub signature_stage :
    World → Pipeline → VerifyInput → Lockfile → Text → Text → VerifyResult → VerifyResult
unfolding tlog_stage verify_signature
signature_stage w p input lf manifest_path digest r =
    let bundle =
      if text_eq input.bundle_path []
      then input.artifact_path ++ codes ".sigstore.json"
      else input.bundle_path in
    let (step, result) = verify_signature p bundle digest in
    elim result [
      | err e ↦ fail_with step r
      | ok s ↦ tlog_stage w p (input.skip_tlog || p.skip_tlog) lf manifest_path s (add_step step r)
    ]

abbrev pub started : VerifyResult
started = record { passed = true; steps = []; violations = []; warnings = [] }

abbrev pub hash_passed : Lockfile → StepResult
hash_passed lf = pass (codes "hash-check") (codes "SHA-256 matches lockfile: " ++ lf.sha256)

-- A default path: the file of this name two directories above the artifact.
unfoldable pub path_or : World → Text → Text → Text → Text
path_or w given artifact name =
    if text_eq given [] then w.join (w.dir (w.dir artifact)) name else given

-- Step 0, with the lockfile read.
unfoldable pub hash_stage : World → Pipeline → VerifyInput → Lockfile → VerifyResult
unfolding signature_stage compute_and_compare_hash path_or
hash_stage w p input lf = elim (compute_and_compare_hash w input.artifact_path lf.sha256) [
  | err e ↦ fail_with (refuse (codes "hash-check") e) started
  | ok digest ↦
      signature_stage w p input lf
        (path_or w input.manifest_path input.artifact_path (codes "skillledger.yaml")) digest
        (add_step (hash_passed lf) started)
]

-- Pipeline.Verify
unfoldable pub verify : World → Pipeline → VerifyInput → Outcome VerifyResult
unfolding hash_stage read_lockfile path_or
verify w p input = do
  lf ← wrap (codes "reading lockfile") (
      read_lockfile w (path_or w input.lockfile_path input.artifact_path (codes "skill-lock.json")))
  ok (hash_stage w p input lf)
