-- ===== src/Proxy/TrustVerifier/Tiers.antt =====
-- What a trust tier of proxy/trust_verifier.go stands for.
use skillledger.Base.{
  ℕ, ◌≡◌, refl, inl, inr, Bool, true, false, some, [], ◌++◌, arith, Text, codes, ok, err, wrap,
  Outcome-cases, >>=-ok,
}
use skillledger.Verify.Types.{Lockfile, World, Pipeline, VerifyInput, VerifyResult}
use skillledger.Verify.Pipeline.{verify, hash_stage}
use skillledger.Verify.Checks.{read_lockfile, compute_and_compare_hash}
use skillledger.Verify.Sound.{lockfile_at, Trusted, verify_sound}
use skillledger.Proxy.TrustVerifier.{
  TrustTier, verified, unverified, Config, assign_tier, cap_tier, resolve_artifact, artifact_of,
  input_for, run_pipeline, run_verification, any_passed,
}

-- The skill's lockfile names an artifact that is on disk, and the pipeline has every reason to
-- trust it.
abbrev pub Verified : Config → Text → Type 0
Verified c skill =
    (id : Text) × (resolve_artifact c skill ≡ ok id)
    × (c.exists (artifact_of c skill id) ≡ true)
    × Trusted c.os c.pipeline (input_for c skill id true)

assign_tier-verified : (vr : VerifyResult) → assign_tier (some vr) ≡ verified → vr.passed ≡ true
unfolding assign_tier
assign_tier-verified vr h = ground arith

cap_tier-verified :
    (b : Bool) (t : TrustTier) → cap_tier b t ≡ verified → (b ≡ true) × (t ≡ verified)
unfolding cap_tier
cap_tier-verified b t h = ground arith

run_pipeline-verified :
    (c : Config) (now : ℕ) (skill id : Text) (b : Bool)
    → (run_pipeline c now skill id b).tier ≡ verified
    → (b ≡ true) × Trusted c.os c.pipeline (input_for c skill id b)
unfolding run_pipeline
run_pipeline-verified c now skill id b h =
    elim (Outcome-cases (verify c.os c.pipeline (input_for c skill id b))) [
      | inr (msg, e) ↦ absurd (ground arith)
      | inl (vr, e) ↦
          let (there, full) = cap_tier-verified b (assign_tier (some vr)) (ground arith) in
          (
            there,
            verify_sound c.os c.pipeline (input_for c skill id b) vr e
                (assign_tier-verified vr full),
          )
    ]

-- The tier "verified" is given only to a skill whose artifact is on disk and which the pipeline
-- trusts: hash, signature, log entry (unless the pipeline skips it) and policy.
pub run_verification-verified :
    (c : Config) (now : ℕ) (skill : Text)
    → (run_verification c now skill).tier ≡ verified
    → Verified c skill
unfolding run_verification
run_verification-verified c now skill h = elim (Outcome-cases (resolve_artifact c skill)) [
  | inr (msg, e) ↦ absurd (ground arith)
  | inl (id, e) ↦
      let (there, trusted) =
        run_pipeline-verified c now skill id (c.exists (artifact_of c skill id)) (ground arith) in
      (id, e, there, rw there at trusted)
]

compute_fails :
    (w : World) (path expected msg : Text)
    → w.open_file path ≡ err msg
    → compute_and_compare_hash w path expected
      ≡ err (codes "opening artifact" ++ (codes ": " ++ msg))
unfolding compute_and_compare_hash
compute_fails w path expected msg e = ground arith

no_hash :
    (w : World) (p : Pipeline) (input : VerifyInput) (lf : Lockfile) (msg : Text)
    → w.open_file input.artifact_path ≡ err msg
    → ((hash_stage w p input lf).passed ≡ false)
      × (any_passed (hash_stage w p input lf).steps ≡ false)
unfolding hash_stage any_passed
no_hash w p input lf msg e =
    rw (compute_fails w input.artifact_path lf.sha256 msg e, hash_stage) (refl, refl)

assign_tier-none :
    (vr : VerifyResult)
    → vr.passed ≡ false
    → any_passed vr.steps ≡ false
    → assign_tier (some vr) ≡ unverified
unfolding assign_tier
assign_tier-none vr h k = rw (h, k)

absent_result :
    (c : Config) (skill id msg : Text) (vr : VerifyResult)
    → c.os.open_file [] ≡ err msg
    → verify c.os c.pipeline (input_for c skill id false) ≡ ok vr
    → (vr.passed ≡ false) × (any_passed vr.steps ≡ false)
unfolding verify
absent_result c skill id msg vr closed h =
    let (lf, locked, stage) =
      >>=-ok
        (wrap (codes "reading lockfile")
          (read_lockfile c.os (lockfile_at c.os (input_for c skill id false))))
        _ h in
    let same : hash_stage c.os c.pipeline (input_for c skill id false) lf ≡ vr = ground arith in
    rw same at (no_hash c.os c.pipeline (input_for c skill id false) lf msg closed)

run_pipeline-absent :
    (c : Config) (now : ℕ) (skill id msg : Text)
    → c.os.open_file [] ≡ err msg
    → (run_pipeline c now skill id false).tier ≡ unverified
unfolding run_pipeline cap_tier
run_pipeline-absent c now skill id msg closed =
    elim (Outcome-cases (verify c.os c.pipeline (input_for c skill id false))) [
      | inr (m, e) ↦ rw (e, run_pipeline)
      | inl (vr, e) ↦
          let (failed, nothing) = absent_result c skill id msg vr closed e in
          rw (e, run_pipeline) (rw (assign_tier-none vr failed nothing))
    ]

-- A skill without an artifact on disk is never more than unverified: the pipeline is given an empty
-- path, which cannot be opened, and stops at its first step. The tier "partial", which the comments
-- promise for a signature without an artifact, is not reached.
pub no_artifact_unverified :
    (c : Config) (now : ℕ) (skill id msg : Text)
    → resolve_artifact c skill ≡ ok id
    → c.exists (artifact_of c skill id) ≡ false
    → c.os.open_file [] ≡ err msg
    → (run_verification c now skill).tier ≡ unverified
unfolding run_verification
no_artifact_unverified c now skill id msg e gone closed =
    rw (e, run_verification) (rw gone (run_pipeline-absent c now skill id msg closed))
