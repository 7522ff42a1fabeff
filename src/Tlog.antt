-- ===== src/Tlog.antt =====
-- cli/internal/tlog: ProofVerifier.VerifyInclusion of proof.go. The HTTP client, the signed
-- checkpoint, the proof builder and the Merkle check are arguments.
mod Tests
use skillledger.Base.{
  ℕ, ◌<◌, ◌≡◌, List, ◌++◌, leb, if◌then◌else◌, Text, codes, Outcome, ok, err, ◌>>=◌, ◌>>◌, wrap,
  wrap-ok, Outcome-cases, arith, inl, inr,
}

-- tlog.LookupResponse, the fields that are read. `log_index` is the int64 as its 64 bits.
pub record LookupResponse : Type 0 where
  pub sha256 : Text
  pub log_index : ℕ

pub record Checkpoint : Type 0 where
  pub tree_size : ℕ
  pub root_hash : Text

-- client, proof and rfc6962 of the transparency-dev libraries.
pub record Log : Type 0 where
  pub parse_url : Outcome (Unit {0})
  pub new_fetcher : Outcome (Unit {0})
  pub fetch_checkpoint : Outcome Checkpoint
  pub new_proof_builder : ℕ → Outcome (Unit {0})
  pub inclusion_proof : ℕ → ℕ → Outcome (List Text)
  pub hash_leaf : Text → Text
  -- proof.VerifyInclusion: index, size, leaf hash, proof, root
  pub verify_proof : ℕ → ℕ → Text → List Text → Text → Outcome (Unit {0})
  pub show : ℕ → Text

abbrev out_of_tree : Log → ℕ → ℕ → Text
out_of_tree l size index =
    codes "checkpoint tree size "
    ++ (l.show size ++ (codes " does not contain index " ++ l.show index))

unfoldable pub verify_inclusion : Log → ℕ → Text → Outcome (Unit {0})
verify_inclusion l index leaf = do
  wrap (codes "parsing log URL") l.parse_url
  wrap (codes "creating HTTP fetcher") l.new_fetcher
  cp ← wrap (codes "fetching/verifying checkpoint") l.fetch_checkpoint
  if leb cp.tree_size index then err (out_of_tree l cp.tree_size index) else do
    wrap (codes "creating proof builder") (l.new_proof_builder cp.tree_size)
    path ← wrap (codes "building inclusion proof") (l.inclusion_proof cp.tree_size index)
    wrap (codes "Merkle inclusion proof verification FAILED")
        (l.verify_proof index cp.tree_size (l.hash_leaf leaf) path cp.root_hash)

-- What an accepted entry has shown.
pub record Included (l : Log) (index : ℕ) (leaf : Text) : Type 0 where
  pub checkpoint : Checkpoint
  pub fetched : l.fetch_checkpoint ≡ ok checkpoint
  pub in_tree : index < checkpoint.tree_size
  pub path : List Text
  pub built : l.inclusion_proof checkpoint.tree_size index ≡ ok path
  pub proved :
      l.verify_proof index checkpoint.tree_size (l.hash_leaf leaf) path checkpoint.root_hash ≡ ok tt

-- An accepted entry lies in the tree of a checkpoint that was fetched and verified, and the Merkle
-- check accepted the proof built for it against that checkpoint's root.
pub verify_inclusion_sound :
    (l : Log) (index : ℕ) (leaf : Text)
    → verify_inclusion l index leaf ≡ ok tt
    → Included l index leaf
unfolding verify_inclusion
verify_inclusion_sound l index leaf h = elim (Outcome-cases l.fetch_checkpoint) [
  | inr (msg, e) ↦ absurd (ground arith)
  | inl (cp, e) ↦ elim (Outcome-cases (l.inclusion_proof cp.tree_size index)) [
    | inr (msg, e') ↦ absurd (ground arith)
    | inl (path, e') ↦ record {
      checkpoint = cp;
      fetched = e;
      in_tree = ground arith;
      path = path;
      built = e';
      proved =
          wrap-ok (codes "Merkle inclusion proof verification FAILED")
            (l.verify_proof index cp.tree_size (l.hash_leaf leaf) path cp.root_hash) (ground arith);
    }
  ]
]
