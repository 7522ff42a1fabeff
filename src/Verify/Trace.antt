-- ===== src/Verify/Trace.antt =====
-- The order of the steps of a whole run of Pipeline.Verify.
use skillledger.Base.{
  ◌≡◌, refl, ap, fun_ext, inl, inr, true, ◌||◌, List, [], ◌∷◌, arith, Text, codes, ok, err, ◌>>=◌,
  wrap, Outcome-cases, >>=-ok,
}
use skillledger.Verify.Types.{Lockfile, World, Pipeline, VerifyInput, VerifyResult}
use skillledger.Verify.Checks.{
  read_lockfile, compute_and_compare_hash, verify_signature, tlog_step, policy_step,
}
use skillledger.Verify.Pipeline.{
  add_step, signature_stage, started, hash_stage, hash_passed, verify,
}
use skillledger.Verify.Sound.{lockfile_at, manifest_at, bundle_at}
use skillledger.Verify.Order.{
  Stops, passing_step, failing_step, tlog_stage-Stops, verify_signature-step, is_ok, outcomes,
}

signature_stage-Stops :
    (w : World) (p : Pipeline) (input : VerifyInput) (lf : Lockfile) (path digest : Text)
    (r : VerifyResult)
    → r.passed ≡ true
    → Stops
        (outcomes r.steps)
        (codes "signature" ∷ tlog_step ∷ policy_step ∷ [])
        (signature_stage w p input lf path digest r)
unfolding signature_stage
signature_stage-Stops w p input lf path digest r h =
    let out = verify_signature p (bundle_at input) digest in
    let step = verify_signature-step p (bundle_at input) digest in
    elim (Outcome-cases out.1) [
      | inr (msg, e) ↦
          rw (e, signature_stage)
            (inl (
              refl,
              failing_step r out.0 (codes "signature") step.0 (unfold is_ok in ground arith),
            ))
      | inl (s, e) ↦
          rw (e, signature_stage)
            (inr (
              rw (passing_step r out.0 (codes "signature") step.0 (unfold is_ok in ground arith)) at
                (tlog_stage-Stops w p (input.skip_tlog || p.skip_tlog) lf path s (add_step out.0 r)
                  h)))
    ]

abbrev pub all_steps : List Text
all_steps = codes "hash-check" ∷ codes "signature" ∷ tlog_step ∷ policy_step ∷ []

hash_stage-Stops :
    (w : World) (p : Pipeline) (input : VerifyInput) (lf : Lockfile)
    → Stops [] all_steps (hash_stage w p input lf)
unfolding hash_stage
hash_stage-Stops w p input lf =
    elim (Outcome-cases (compute_and_compare_hash w input.artifact_path lf.sha256)) [
      | inr (msg, e) ↦ rw (e, hash_stage) (inl (refl, refl))
      | inl (digest, e) ↦
          rw (e, hash_stage)
            (inr (
              signature_stage-Stops w p input lf (manifest_at w input) digest
                (add_step (hash_passed lf) started) refl))
    ]

-- Every run that can read the lockfile reports the steps hash-check, signature, transparency-log and
-- policy in this order, up to the first that fails: all before the last reported step passed, and
-- the whole run passes exactly if it reaches the policy step and that step passes.
pub verify-Stops :
    (w : World) (p : Pipeline) (input : VerifyInput) (r : VerifyResult)
    → verify w p input ≡ ok r
    → Stops [] all_steps r
unfolding verify
verify-Stops w p input r h =
    let (lf, locked, stage) =
      >>=-ok (wrap (codes "reading lockfile") (read_lockfile w (lockfile_at w input))) _ h in
    let same : hash_stage w p input lf ≡ r = ground arith in
    rw same at (hash_stage-Stops w p input lf)

module _ (w : World) (p q : Pipeline) (input : VerifyInput) where
  signature_stage_first :
      (lf : Lockfile) (path digest msg : Text) (r : VerifyResult)
      → p.verify_bundle (bundle_at input) digest ≡ err msg
      → q.verify_bundle (bundle_at input) digest ≡ err msg
      → signature_stage w p input lf path digest r ≡ signature_stage w q input lf path digest r
  unfolding signature_stage
  signature_stage_first lf path digest msg r e f = ground arith

  hash_stage_first :
      ((digest : Text)
        → (msg : Text) × (p.verify_bundle (bundle_at input) digest ≡ err msg)
          × (q.verify_bundle (bundle_at input) digest ≡ err msg))
      → (lf : Lockfile) → hash_stage w p input lf ≡ hash_stage w q input lf
  unfolding hash_stage
  hash_stage_first fails lf =
      elim (Outcome-cases (compute_and_compare_hash w input.artifact_path lf.sha256)) [
        | inr (msg, e) ↦ rw (e, hash_stage)
        | inl (digest, e) ↦
            let (msg, e1, e2) = fails digest in
            rw (e, hash_stage)
              (signature_stage_first lf (manifest_at w input) digest msg
                (add_step (hash_passed lf) started) e1 e2)
      ]

  -- Until the signature is verified neither the log, nor the manifest, nor the policy has any
  -- influence: if two pipelines refuse the bundle with the same error for every digest, their whole
  -- results are equal, whatever else they have.
  pub signature_first :
      ((digest : Text)
        → (msg : Text) × (p.verify_bundle (bundle_at input) digest ≡ err msg)
          × (q.verify_bundle (bundle_at input) digest ≡ err msg))
      → verify w p input ≡ verify w q input
  unfolding verify
  signature_first fails =
      ap
        (λ (f : Lockfile → VerifyResult).
          wrap (codes "reading lockfile") (read_lockfile w (lockfile_at w input)) >>= λ lf.
          ok (f lf))
        (fun_ext (hash_stage_first fails))
