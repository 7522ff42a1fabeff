-- ===== src/Verify/Warnings.antt =====
-- The warnings of a passed run of Pipeline.Verify.
use skillledger.Base.{
  ◌++◌, ◌≡◌, refl, ◌≢◌, inl, inr, Bool, true, false, ◌||◌, none, List, [], ◌∷◌, arith,
  if◌then◌else◌, Text, codes, text_eq, text_eq_iff, ok, wrap, Outcome-cases, >>=-ok,
}
use mathlib.Core.Path.{subst}
use skillledger.Manifest.{Manifest}
use skillledger.Policy.{PolicyInput, PolicyResult}
use skillledger.Verify.Types.{Lockfile, Signer, World, Pipeline, VerifyInput, VerifyResult}
use skillledger.Verify.Checks.{
  read_lockfile, compute_and_compare_hash, verify_signature, verify_tlog, on_decision,
  verify_policy,
}
use skillledger.Verify.Pipeline.{
  max_manifest_size, read_file_limited, add_step, or_else, with_policy, manifest_stage,
  skip_warning, skipped, tlog_stage, signature_stage, started, hash_stage, hash_passed, verify,
}
use skillledger.Verify.Sound.{lockfile_at, manifest_at, bundle_at}
use skillledger.Verify.Order.{policy_stage-cases}

-- The warnings after a policy result: those of a "warn" decision replace what was there.
abbrev pub reported : PolicyResult → List Text → List Text
reported r before = if text_eq r.decision (codes "warn") then or_else r.warnings before else before

-- What the policy is asked.
abbrev pub asked : Manifest → Signer → PolicyInput
asked m s = record {
  capabilities = m.capabilities;
  signed_by = s.signer_identity;
  issuer = s.issuer;
}

-- The warnings before the policy step.
abbrev pub skip_warnings : Bool → List Text
skip_warnings true = skip_warning ∷ []
skip_warnings false = []

different : codes "allow" ≢ codes "warn"
different e = cc

abbrev pub Reports : Pipeline → Signer → List Text → VerifyResult → Type 0
Reports p s before r =
    (m : Manifest) × (res : PolicyResult) × (p.evaluate (asked m s) ≡ ok res)
    × (r.warnings ≡ reported res before)

on_decision-warnings :
    (w : World) (res : PolicyResult) (before : List Text)
    → (on_decision w res).error ≡ none
    → or_else (on_decision w res).warnings before ≡ reported res before
unfolding on_decision
on_decision-warnings w res before h = ground (
  arith,
  text_eq_iff res.decision (codes "allow"),
  text_eq_iff res.decision (codes "warn"),
  different,
)

with_policy-Reports :
    (w : World) (p : Pipeline) (m : Manifest) (s : Signer) (r : VerifyResult)
    → (with_policy (verify_policy w p m.capabilities s) r).passed ≡ true
    → Reports p s r.warnings (with_policy (verify_policy w p m.capabilities s) r)
unfolding with_policy verify_policy
with_policy-Reports w p m s r h = elim (Outcome-cases (p.evaluate (asked m s))) [
  | inr (msg, e) ↦ absurd (unfold verify_policy in ground arith)
  | inl (res, e) ↦ (
    m,
    res,
    e,
    rw (e, verify_policy)
        (on_decision-warnings w res r.warnings (unfold verify_policy in ground arith)),
  )
]

manifest_stage-Reports :
    (w : World) (p : Pipeline) (path : Text) (s : Signer) (r : VerifyResult)
    → (manifest_stage w p path s r).passed ≡ true
    → Reports p s r.warnings (manifest_stage w p path s r)
unfolding manifest_stage
manifest_stage-Reports w p path s r h =
    elim (Outcome-cases (read_file_limited w path max_manifest_size)) [
      | inr (msg, e) ↦ absurd (ground arith)
      | inl (bytes, e) ↦
          rw (e, manifest_stage)
            (elim (policy_stage-cases w p s bytes r) [
              | inl (msg, eq) ↦ absurd (ground arith)
              | inr (m, eq) ↦ rw eq (with_policy-Reports w p m s r (ground arith))
            ])
    ]

tlog_stage-Reports :
    (w : World) (p : Pipeline) (skip : Bool) (lf : Lockfile) (path : Text) (s : Signer)
    (r : VerifyResult)
    → r.warnings ≡ []
    → (tlog_stage w p skip lf path s r).passed ≡ true
    → Reports p s (skip_warnings skip) (tlog_stage w p skip lf path s r)
unfolding tlog_stage
tlog_stage-Reports w p true lf path s r clean h =
    subst
      (λ before. Reports p s (before ++ skip_warning ∷ []) (manifest_stage w p path s (skipped r)))
      clean (manifest_stage-Reports w p path s (skipped r) h)
tlog_stage-Reports w p false lf path s r clean h =
    let out = verify_tlog w p lf.artifact_id lf.sha256 in
    elim (Outcome-cases out.1) [
      | inr (msg, e) ↦ absurd (ground arith)
      | inl (u, e) ↦
          rw (e, tlog_stage)
            (subst (λ before. Reports p s before (manifest_stage w p path s (add_step out.0 r)))
              clean (manifest_stage-Reports w p path s (add_step out.0 r) (ground arith)))
    ]

signature_stage-Reports :
    (w : World) (p : Pipeline) (input : VerifyInput) (lf : Lockfile) (path digest : Text)
    (r : VerifyResult)
    → r.warnings ≡ []
    → (signature_stage w p input lf path digest r).passed ≡ true
    → (s : Signer) × Reports p s
        (skip_warnings (input.skip_tlog || p.skip_tlog))
        (signature_stage w p input lf path digest r)
unfolding signature_stage
signature_stage-Reports w p input lf path digest r clean h =
    let out = verify_signature p (bundle_at input) digest in
    elim (Outcome-cases out.1) [
      | inr (msg, e) ↦ absurd (ground arith)
      | inl (s, e) ↦ (
        s,
        rw (e, signature_stage)
            (tlog_stage-Reports w p (input.skip_tlog || p.skip_tlog) lf path s (add_step out.0 r)
              clean (ground arith)),
      )
    ]

hash_stage-Reports :
    (w : World) (p : Pipeline) (input : VerifyInput) (lf : Lockfile)
    → (hash_stage w p input lf).passed ≡ true
    → (s : Signer) × Reports p s
        (skip_warnings (input.skip_tlog || p.skip_tlog))
        (hash_stage w p input lf)
unfolding hash_stage
hash_stage-Reports w p input lf h =
    elim (Outcome-cases (compute_and_compare_hash w input.artifact_path lf.sha256)) [
      | inr (msg, e) ↦ absurd (ground arith)
      | inl (digest, e) ↦
          rw (e, hash_stage)
            (signature_stage-Reports w p input lf (manifest_at w input) digest
              (add_step (hash_passed lf) started) refl (ground arith))
    ]

-- The warnings of a passed run: one that the log was skipped, if it was, unless the policy's
-- decision is "warn" with a list of warnings, which replaces the warnings instead of joining them.
-- So a run that skips the log and is warned about does not say that the log was skipped.
pub verify-warnings :
    (w : World) (p : Pipeline) (input : VerifyInput) (r : VerifyResult)
    → verify w p input ≡ ok r
    → r.passed ≡ true
    → (s : Signer) × Reports p s (skip_warnings (input.skip_tlog || p.skip_tlog)) r
unfolding verify
verify-warnings w p input r h passed =
    let (lf, locked, stage) =
      >>=-ok (wrap (codes "reading lockfile") (read_lockfile w (lockfile_at w input))) _ h in
    let same : hash_stage w p input lf ≡ r = ground arith in
    rw same at (hash_stage-Reports w p input lf (ground arith))
