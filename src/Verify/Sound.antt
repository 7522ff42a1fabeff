-- ===== src/Verify/Sound.antt =====
-- What a passed run of Pipeline.Verify has established, and that this is enough to pass.
use skillledger.Base.{
  ◌≡◌, refl, ◌⊎◌, inl, inr, Bool, true, false, ◌||◌, [], ◌++◌, arith, if◌then◌else◌, Text, codes,
  text_eq, text_eq_iff, ok, wrap, Outcome-cases, >>=-ok, wrap-ok,
}
use mathlib.Core.Path.{subst}
use skillledger.Manifest.{parse_and_validate}
use skillledger.Verify.Types.{Lockfile, Signer, World, Pipeline, VerifyInput, VerifyResult}
use skillledger.Verify.Checks.{
  read_lockfile, compute_and_compare_hash, verify_signature, verify_tlog,
}
use skillledger.Verify.Pipeline.{
  max_manifest_size, read_file_limited, add_step, policy_stage, manifest_stage, skipped, tlog_stage,
  signature_stage, started, path_or, hash_stage, hash_passed, verify,
}
use skillledger.Verify.Evidence.{
  Logged, Permitted, verify_tlog-ok, verify_policy-ok, parsed_manifest, policy_stage-passed,
  policy_stage-error, read_file_limited-ok,
}

-- The paths that Verify uses.
abbrev pub lockfile_at : World → VerifyInput → Text
lockfile_at w i = path_or w i.lockfile_path i.artifact_path (codes "skill-lock.json")

abbrev pub manifest_at : World → VerifyInput → Text
manifest_at w i = path_or w i.manifest_path i.artifact_path (codes "skillledger.yaml")

abbrev pub bundle_at : VerifyInput → Text
bundle_at i =
    if text_eq i.bundle_path [] then i.artifact_path ++ codes ".sigstore.json" else i.bundle_path

pub record Trusted (w : World) (p : Pipeline) (input : VerifyInput) : Type 0 where
  pub lockfile : Lockfile
  pub locked : read_lockfile w (lockfile_at w input) ≡ ok lockfile
  pub bytes : Text
  pub opened : w.open_file input.artifact_path ≡ ok (ok bytes)
  pub same_hash : w.hex (w.hash bytes) ≡ lockfile.sha256
  pub signer : Signer
  pub signed : p.verify_bundle (bundle_at input) (w.hash bytes) ≡ ok signer
  pub logged : ((input.skip_tlog || p.skip_tlog) ≡ true) ⊎ Logged w p lockfile
  pub permitted : Permitted w p (manifest_at w input) signer

manifest_stage_sound :
    (w : World) (p : Pipeline) (path : Text) (s : Signer) (r : VerifyResult)
    → (manifest_stage w p path s r).passed ≡ true
    → Permitted w p path s
unfolding manifest_stage
manifest_stage_sound w p path s r h =
    elim (Outcome-cases (read_file_limited w path max_manifest_size)) [
      | inr (msg, e) ↦ absurd (ground arith)
      | inl (bytes, e) ↦
          let stage : (policy_stage w p s (parse_and_validate w.codec bytes) r).passed ≡ true =
            ground arith in
          let (size, measured, small, read) =
            read_file_limited-ok w path max_manifest_size bytes e in
          let (m, parsed) = parsed_manifest w.codec bytes (policy_stage-error w p s _ r stage) in
          let (res, evaluated, accepted) =
            verify_policy-ok w p m.capabilities s (policy_stage-passed w p s _ m r parsed stage) in
          record {
            size = size;
            measured = measured;
            small = small;
            bytes = bytes;
            read = read;
            manifest = m;
            parsed = parsed;
            result = res;
            evaluated = evaluated;
            accepted = accepted;
          }
    ]

tlog_stage_sound :
    (w : World) (p : Pipeline) (skip : Bool) (lf : Lockfile) (path : Text) (s : Signer)
    (r : VerifyResult)
    → (tlog_stage w p skip lf path s r).passed ≡ true
    → ((skip ≡ true) ⊎ Logged w p lf) × Permitted w p path s
unfolding tlog_stage
tlog_stage_sound w p true lf path s r h = (inl refl, manifest_stage_sound w p path s (skipped r) h)
tlog_stage_sound w p false lf path s r h =
    elim (Outcome-cases (verify_tlog w p lf.artifact_id lf.sha256).1) [
      | inr (msg, e) ↦ absurd (ground arith)
      | inl (u, e) ↦ (
        inr (verify_tlog-ok w p lf e),
        manifest_stage_sound w p path s (add_step (verify_tlog w p lf.artifact_id lf.sha256).0 r)
            (ground arith),
      )
    ]

verify_signature-ok :
    (p : Pipeline) (bundle digest : Text) (s : Signer)
    → (verify_signature p bundle digest).1 ≡ ok s
    → p.verify_bundle bundle digest ≡ ok s
unfolding verify_signature
verify_signature-ok p bundle digest s h = ground arith

compute_and_compare_hash-ok :
    (w : World) (path expected digest : Text)
    → compute_and_compare_hash w path expected ≡ ok digest
    → (bytes : Text) × (w.open_file path ≡ ok (ok bytes))
      × (w.hex (w.hash bytes) ≡ expected)
      × (digest ≡ w.hash bytes)
unfolding compute_and_compare_hash
compute_and_compare_hash-ok w path expected digest h = elim (Outcome-cases (w.open_file path)) [
  | inr (msg, e) ↦ absurd (ground arith)
  | inl (opened, e) ↦ elim (Outcome-cases opened) [
    | inr (msg, e') ↦ absurd (ground arith)
    | inl (bytes, e') ↦ (
      bytes,
      rw (← e') e,
      ground (arith, text_eq_iff (w.hex (w.hash bytes)) expected),
      ground arith,
    )
  ]
]

abbrev Signed : World → Pipeline → VerifyInput → Lockfile → Text → Text → Type 0
Signed w p input lf path digest =
    (s : Signer) × (p.verify_bundle (bundle_at input) digest ≡ ok s)
    × (((input.skip_tlog || p.skip_tlog) ≡ true) ⊎ Logged w p lf)
    × Permitted w p path s

signature_stage_sound :
    (w : World) (p : Pipeline) (input : VerifyInput) (lf : Lockfile) (path digest : Text)
    (r : VerifyResult)
    → (signature_stage w p input lf path digest r).passed ≡ true
    → Signed w p input lf path digest
unfolding signature_stage
signature_stage_sound w p input lf path digest r h =
    elim (Outcome-cases (verify_signature p (bundle_at input) digest).1) [
      | inr (msg, e) ↦ absurd (ground arith)
      | inl (s, e) ↦
          let (logged, permitted) =
            tlog_stage_sound w p (input.skip_tlog || p.skip_tlog) lf path s
              (add_step (verify_signature p (bundle_at input) digest).0 r) (ground arith) in
          (s, verify_signature-ok p (bundle_at input) digest s e, logged, permitted)
    ]

hash_stage_sound :
    (w : World) (p : Pipeline) (input : VerifyInput) (lf : Lockfile)
    → read_lockfile w (lockfile_at w input) ≡ ok lf
    → (hash_stage w p input lf).passed ≡ true
    → Trusted w p input
unfolding hash_stage
hash_stage_sound w p input lf locked h =
    elim (Outcome-cases (compute_and_compare_hash w input.artifact_path lf.sha256)) [
      | inr (msg, e) ↦ absurd (ground arith)
      | inl (digest, e) ↦
          let (bytes, opened, same, eq) =
            compute_and_compare_hash-ok w input.artifact_path lf.sha256 digest e in
          let (s, signed, logged, permitted) =
            signature_stage_sound w p input lf (manifest_at w input) digest
              (add_step (hash_passed lf) started) (ground arith) in
          record {
            lockfile = lf;
            locked = locked;
            bytes = bytes;
            opened = opened;
            same_hash = same;
            signer = s;
            signed = subst (λ d. p.verify_bundle (bundle_at input) d ≡ ok s) eq signed;
            logged = logged;
            permitted = permitted;
          }
    ]

-- A run that passes has read the lockfile, found the artifact's SHA-256 in it, verified the
-- signature over that hash, found the same hash in the log (with a Merkle proof where a proof
-- verifier is set) unless the log was skipped, and had the policy allow or warn.
pub verify_sound :
    (w : World) (p : Pipeline) (input : VerifyInput) (r : VerifyResult)
    → verify w p input ≡ ok r
    → r.passed ≡ true
    → Trusted w p input
unfolding verify
verify_sound w p input r h passed =
    let (lf, locked, stage) =
      >>=-ok (wrap (codes "reading lockfile") (read_lockfile w (lockfile_at w input))) _ h in
    hash_stage_sound w p input lf (wrap-ok (codes "reading lockfile") _ locked) (ground arith)
