-- ===== src/Tlog/Tests.antt =====
-- Runs of VerifyInclusion, and its theorem at a concrete input.
use skillledger.Base.{◌≡◌, refl, ◌≢◌, [], ◌∷◌, if◌then◌else◌, codes, text_eq, ok, err}
use skillledger.Tlog.{Log, verify_inclusion, Included, verify_inclusion_sound}

-- A log of one entry: its root is the hash of the leaf, and the proof is empty.
abbrev log : Log
log = record {
  parse_url = ok tt;
  new_fetcher = ok tt;
  fetch_checkpoint = ok (record { tree_size = 1; root_hash = codes "leaf" });
  new_proof_builder = λ size. ok tt;
  inclusion_proof = λ size index. ok [];
  hash_leaf = λ leaf. leaf;
  verify_proof =
      λ index size leaf path root. if text_eq leaf root then ok tt else err (codes "root");
  show = λ n. n ∷ [];
}

included : verify_inclusion log 0 (codes "leaf") ≡ ok tt
unfolding verify_inclusion text_eq
included = refl

beyond : verify_inclusion log 1 (codes "leaf") ≢ ok tt
unfolding verify_inclusion
beyond h = cc

verify_inclusion_sound_example : Included log 0 (codes "leaf")
verify_inclusion_sound_example = verify_inclusion_sound log 0 (codes "leaf") included
