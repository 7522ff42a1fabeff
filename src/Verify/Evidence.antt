-- ===== src/Verify/Evidence.antt =====
-- What each check of cli/internal/verify has established where it succeeds.
use skillledger.Base.{
  ℕ, ◌≤◌, ◌≡◌, ◌⊎◌, inl, inr, true, none, some, ◌++◌, arith, Bool-cases, Option-cases, Text, codes,
  text_eq, text_eq→≡, Outcome, ok, Outcome-cases, >>=-ok,
}
use skillledger.Manifest.{Capabilities, Manifest, Codec, Parsed, parse_and_validate}
use skillledger.Tlog.{LookupResponse}
use skillledger.Policy.{PolicyResult}
use skillledger.Verify.Types.{Lockfile, Signer, World, Pipeline, VerifyResult}
use skillledger.Verify.Checks.{verify_merkle, verify_tlog, on_decision, verify_policy}
use skillledger.Verify.Pipeline.{max_manifest_size, read_file_limited, policy_stage}

-- verifyTlog accepted the lockfile's entry.
pub record Logged (w : World) (p : Pipeline) (lf : Lockfile) : Type 0 where
  pub entry : LookupResponse
  pub looked_up : p.lookup_entry lf.artifact_id ≡ ok entry
  pub same_hash : entry.sha256 ≡ lf.sha256
  pub merkle :
      (p.proof_verifier ≡ none)
      ⊎ ((check : ℕ → Text → Outcome (Unit {0})) × (leaf : Text) × (p.proof_verifier ≡ some check)
          × (w.marshal_leaf lf.artifact_id lf.sha256 (codes "sha256-" ++ lf.sha256) ≡ ok leaf)
          × (check entry.log_index leaf ≡ ok tt))

-- The manifest was read within the size limit, accepted by the schema, and the policy, asked about
-- its capabilities and the signer, said "allow" or "warn".
pub record Permitted (w : World) (p : Pipeline) (path : Text) (s : Signer) : Type 0 where
  pub size : ℕ
  pub measured : w.file_size path ≡ ok size
  pub small : size ≤ max_manifest_size
  pub bytes : Text
  pub read : w.read_file path ≡ ok bytes
  pub manifest : Manifest
  pub parsed : (parse_and_validate w.codec bytes).manifest ≡ some manifest
  pub result : PolicyResult
  pub evaluated :
      p.evaluate (record {
        capabilities = manifest.capabilities;
        signed_by = s.signer_identity;
        issuer = s.issuer;
      })
      ≡ ok result
  pub accepted : (result.decision ≡ codes "allow") ⊎ (result.decision ≡ codes "warn")

abbrev pub Accepts : PolicyResult → Type 0
Accepts r = (r.decision ≡ codes "allow") ⊎ (r.decision ≡ codes "warn")

pub on_decision-Accepts :
    (w : World) (r : PolicyResult) → (on_decision w r).error ≡ none → Accepts r
unfolding on_decision
on_decision-Accepts w r h = elim (Bool-cases (text_eq r.decision (codes "allow"))) [
  | inl e ↦ inl (text_eq→≡ _ _ e)
  | inr ne ↦ elim (Bool-cases (text_eq r.decision (codes "warn"))) [
    | inl e ↦ inr (text_eq→≡ _ _ e)
    | inr ne' ↦ ground arith
  ]
]

pub verify_merkle-ok :
    (w : World) (check : ℕ → Text → Outcome (Unit {0})) (id sha : Text) (i : ℕ)
    → (verify_merkle w check id sha i).1 ≡ ok tt
    → (leaf : Text) × (w.marshal_leaf id sha (codes "sha256-" ++ sha) ≡ ok leaf)
      × (check i leaf ≡ ok tt)
unfolding verify_merkle
verify_merkle-ok w check id sha i h =
    elim (Outcome-cases (w.marshal_leaf id sha (codes "sha256-" ++ sha))) [
      | inl (leaf, e) ↦ (leaf, e, ground arith)
      | inr (msg, e) ↦ ground arith
    ]

pub verify_tlog-ok :
    (w : World) (p : Pipeline) (lf : Lockfile)
    → (verify_tlog w p lf.artifact_id lf.sha256).1 ≡ ok tt
    → Logged w p lf
unfolding verify_tlog
verify_tlog-ok w p lf h = elim (Outcome-cases (p.lookup_entry lf.artifact_id)) [
  | inr (msg, e) ↦ absurd (ground arith)
  | inl (entry, e) ↦ elim (Bool-cases (text_eq entry.sha256 lf.sha256)) [
    | inr ne ↦ absurd (ground arith)
    | inl same ↦ record {
      entry = entry;
      looked_up = e;
      same_hash = text_eq→≡ _ _ same;
      merkle = elim (Option-cases p.proof_verifier) [
        | inl off ↦ inl off
        | inr (check, on) ↦
            let (leaf, marshalled, checked) =
              verify_merkle-ok w check lf.artifact_id lf.sha256 entry.log_index (ground arith) in
            inr (check, leaf, on, marshalled, checked)
      ];
    }
  ]
]

pub verify_policy-ok :
    (w : World) (p : Pipeline) (caps : Capabilities) (s : Signer)
    → (verify_policy w p caps s).error ≡ none
    → (r : PolicyResult) × (p.evaluate
          (record { capabilities = caps; signed_by = s.signer_identity; issuer = s.issuer })
        ≡ ok r)
      × Accepts r
unfolding verify_policy
verify_policy-ok w p caps s h =
    elim (Outcome-cases (
      p.evaluate
        (record { capabilities = caps; signed_by = s.signer_identity; issuer = s.issuer }))) [
          | inr (msg, e) ↦ absurd (ground arith)
          | inl (r, e) ↦ (r, e, on_decision-Accepts w r (ground arith))
        ]

-- Without an error there is a manifest.
pub parsed_manifest :
    (c : Codec) (yaml : Text)
    → (parse_and_validate c yaml).error ≡ none
    → (m : Manifest) × ((parse_and_validate c yaml).manifest ≡ some m)
unfolding parse_and_validate
parsed_manifest c yaml h = elim (Option-cases (parse_and_validate c yaml).manifest) [
  | inl e ↦ absurd (ground arith)
  | inr found ↦ found
]

pub policy_stage-passed :
    (w : World) (p : Pipeline) (s : Signer) (parsed : Parsed) (m : Manifest) (r : VerifyResult)
    → parsed.manifest ≡ some m
    → (policy_stage w p s parsed r).passed ≡ true
    → (verify_policy w p m.capabilities s).error ≡ none
unfolding policy_stage
policy_stage-passed w p s parsed m r e h = ground arith

pub policy_stage-error :
    (w : World) (p : Pipeline) (s : Signer) (parsed : Parsed) (r : VerifyResult)
    → (policy_stage w p s parsed r).passed ≡ true
    → parsed.error ≡ none
unfolding policy_stage
policy_stage-error w p s parsed r h = ground arith

pub read_file_limited-ok :
    (w : World) (path : Text) (max_bytes : ℕ) (bytes : Text)
    → read_file_limited w path max_bytes ≡ ok bytes
    → (size : ℕ) × (w.file_size path ≡ ok size) × (size ≤ max_bytes) × (w.read_file path ≡ ok bytes)
unfolding read_file_limited
read_file_limited-ok w path max_bytes bytes h =
    let (size, measured, rest) = >>=-ok (w.file_size path) _ h in
    (size, measured, ground arith, ground arith)
