-- ===== src/Verify/Order.antt =====
-- Which steps Pipeline.Verify reports, in which order, and which warnings.
use skillledger.Base.{
  ℕ, ◌≡◌, refl, ◌∙◌, ◌⊎◌, inl, inr, Bool, true, false, Option, none, some, List, [], ◌∷◌, ◌++◌,
  arith, Option-cases, List-cases, Text, codes, Outcome, ok, err, Outcome-cases,
}
use skillledger.Manifest.{Capabilities, Manifest, parse_and_validate}
use skillledger.Policy.{PolicyResult}
use skillledger.Verify.Types.{
  Lockfile, Signer, World, Pipeline, StepResult, VerifyResult, pass, refuse,
}
use skillledger.Verify.Checks.{
  verify_signature, tlog_step, verify_merkle, verify_tlog, policy_step, on_decision, verify_policy,
}
use skillledger.Verify.Pipeline.{
  max_manifest_size, read_file_limited, add_step, fail_with, with_policy, policy_stage,
  manifest_stage, skipped, tlog_stage,
}
use skillledger.Verify.Evidence.{parsed_manifest}

abbrev pub Trace : Type 0
Trace = List (Text × Bool)

-- The reported steps: their names, and whether they passed.
abbrev pub outcomes : List StepResult → Trace
outcomes [] = []
outcomes (s ∷ ss) = (s.name, s.passed) ∷ outcomes ss

outcomes-append :
    (xs : List StepResult) (s : StepResult)
    → outcomes (xs ++ s ∷ []) ≡ outcomes xs ++ (s.name, s.passed) ∷ []
outcomes-append [] s = refl
outcomes-append (x ∷ xs) s = rw (outcomes-append xs s)

abbrev passed_unless : Option Text → Bool
passed_unless none = true
passed_unless (some e) = false

on_decision-step :
    (w : World) (r : PolicyResult)
    → ((on_decision w r).step.name ≡ policy_step)
      × ((on_decision w r).step.passed ≡ passed_unless (on_decision w r).error)
unfolding on_decision
on_decision-step w r = ground arith

verify_policy-step :
    (w : World) (p : Pipeline) (caps : Capabilities) (s : Signer)
    → ((verify_policy w p caps s).step.name ≡ policy_step)
      × ((verify_policy w p caps s).step.passed ≡ passed_unless (verify_policy w p caps s).error)
unfolding verify_policy
verify_policy-step w p caps s =
    elim (Outcome-cases (
      p.evaluate
        (record { capabilities = caps; signed_by = s.signer_identity; issuer = s.issuer }))) [
          | inr (msg, e) ↦ rw (e, verify_policy) (refl, refl)
          | inl (r, e) ↦ rw (e, verify_policy) (on_decision-step w r)
        ]

abbrev LastIs : Text → Trace → VerifyResult → Type 0
LastIs name done r = outcomes r.steps ≡ done ++ (name, r.passed) ∷ []

with_policy-LastIs :
    (w : World) (p : Pipeline) (caps : Capabilities) (s : Signer) (r : VerifyResult)
    → r.passed ≡ true
    → LastIs policy_step (outcomes r.steps) (with_policy (verify_policy w p caps s) r)
unfolding with_policy
with_policy-LastIs w p caps s r h =
    outcomes-append r.steps (verify_policy w p caps s).step
    ∙ ground (arith, verify_policy-step w p caps s)

fail_with-LastIs :
    (name e : Text) (r : VerifyResult)
    → LastIs name (outcomes r.steps) (fail_with (refuse name e) r)
fail_with-LastIs name e r = outcomes-append r.steps (refuse name e)

pub policy_stage-cases :
    (w : World) (p : Pipeline) (s : Signer) (bytes : Text) (r : VerifyResult)
    → ((e : Text) × (policy_stage w p s (parse_and_validate w.codec bytes) r
          ≡ fail_with (refuse policy_step e) r))
      ⊎ ((m : Manifest) × (policy_stage w p s (parse_and_validate w.codec bytes) r
            ≡ with_policy (verify_policy w p m.capabilities s) r))
unfolding policy_stage
policy_stage-cases w p s bytes r = elim (Option-cases (parse_and_validate w.codec bytes).error) [
  | inr (e, h) ↦ inl (codes "parsing manifest: " ++ e, ground arith)
  | inl h ↦ elim (List-cases (parse_and_validate w.codec bytes).validation_errors) [
    | inr (v, vs, k) ↦ inl (codes "manifest validation failed: " ++ v.message, ground arith)
    | inl k ↦ let (m, found) = parsed_manifest w.codec bytes h in inr (m, ground arith)
  ]
]

policy_stage-LastIs :
    (w : World) (p : Pipeline) (s : Signer) (bytes : Text) (r : VerifyResult)
    → r.passed ≡ true
    → LastIs policy_step
        (outcomes r.steps)
        (policy_stage w p s (parse_and_validate w.codec bytes) r)
policy_stage-LastIs w p s bytes r h = elim (policy_stage-cases w p s bytes r) [
  | inl (e, eq) ↦ rw eq (fail_with-LastIs policy_step e r)
  | inr (m, eq) ↦ rw eq (with_policy-LastIs w p m.capabilities s r h)
]

manifest_stage-LastIs :
    (w : World) (p : Pipeline) (path : Text) (s : Signer) (r : VerifyResult)
    → r.passed ≡ true
    → LastIs policy_step (outcomes r.steps) (manifest_stage w p path s r)
unfolding manifest_stage
manifest_stage-LastIs w p path s r h =
    elim (Outcome-cases (read_file_limited w path max_manifest_size)) [
      | inr (msg, e) ↦
          rw (e, manifest_stage)
            (fail_with-LastIs policy_step (codes "reading manifest: " ++ msg) r)
      | inl (bytes, e) ↦ rw (e, manifest_stage) (policy_stage-LastIs w p s bytes r h)
    ]

unfoldable pub is_ok {ℓ} : {A : Type ℓ} → Outcome A → Bool
is_ok (ok a) = true
is_ok (err e) = false

verify_merkle-step :
    (w : World) (check : ℕ → Text → Outcome (Unit {0})) (id sha : Text) (i : ℕ)
    → ((verify_merkle w check id sha i).0.name ≡ tlog_step)
      × ((verify_merkle w check id sha i).0.passed ≡ is_ok (verify_merkle w check id sha i).1)
unfolding verify_merkle is_ok
verify_merkle-step w check id sha i = ground arith

verify_tlog-step :
    (w : World) (p : Pipeline) (id sha : Text)
    → ((verify_tlog w p id sha).0.name ≡ tlog_step)
      × ((verify_tlog w p id sha).0.passed ≡ is_ok (verify_tlog w p id sha).1)
unfolding verify_tlog is_ok
verify_tlog-step w p id sha = ground arith

pub verify_signature-step :
    (p : Pipeline) (bundle digest : Text)
    → ((verify_signature p bundle digest).0.name ≡ codes "signature")
      × ((verify_signature p bundle digest).0.passed ≡ is_ok (verify_signature p bundle digest).1)
unfolding verify_signature is_ok
verify_signature-step p bundle digest = ground arith

-- The steps `done` passed, and the run goes on through the steps of the list: it stops at the
-- first that fails, and its last step decides.
abbrev pub Stops : Trace → List Text → VerifyResult → Type 0
Stops done [] r = ⊥
Stops done (n ∷ []) r = LastIs n done r
Stops done (n ∷ m ∷ ns) r =
    ((r.passed ≡ false) × (outcomes r.steps ≡ done ++ (n, false) ∷ []))
    ⊎ Stops (done ++ (n, true) ∷ []) (m ∷ ns) r

pub passing_step :
    (r : VerifyResult) (s : StepResult) (name : Text)
    → s.name ≡ name
    → s.passed ≡ true
    → outcomes (add_step s r).steps ≡ outcomes r.steps ++ (name, true) ∷ []
passing_step r s name e h = outcomes-append r.steps s ∙ cc

pub failing_step :
    (r : VerifyResult) (s : StepResult) (name : Text)
    → s.name ≡ name
    → s.passed ≡ false
    → outcomes (fail_with s r).steps ≡ outcomes r.steps ++ (name, false) ∷ []
failing_step r s name e h = outcomes-append r.steps s ∙ cc

pub tlog_stage-Stops :
    (w : World) (p : Pipeline) (skip : Bool) (lf : Lockfile) (path : Text) (s : Signer)
    (r : VerifyResult)
    → r.passed ≡ true
    → Stops (outcomes r.steps) (tlog_step ∷ policy_step ∷ []) (tlog_stage w p skip lf path s r)
unfolding tlog_stage
tlog_stage-Stops w p true lf path s r h = inr (
    rw (outcomes-append r.steps (pass tlog_step (codes "SKIPPED (--skip-tlog flag set)"))) at
      (manifest_stage-LastIs w p path s (skipped r) h))
tlog_stage-Stops w p false lf path s r h =
    let step = verify_tlog-step w p lf.artifact_id lf.sha256 in
    let out = verify_tlog w p lf.artifact_id lf.sha256 in
    elim (Outcome-cases out.1) [
      | inr (msg, e) ↦
          rw (e, tlog_stage)
            (inl (refl, failing_step r out.0 tlog_step step.0 (unfold is_ok in ground arith)))
      | inl (u, e) ↦
          rw (e, tlog_stage)
            (inr (
              rw (passing_step r out.0 tlog_step step.0 (unfold is_ok in ground arith)) at
                (manifest_stage-LastIs w p path s (add_step out.0 r) h)))
    ]
