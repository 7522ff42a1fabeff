-- ===== src/Builder/Locked.antt =====
-- Build of cli/internal/builder/builder.go, and the hash check of cli/internal/verify on its result.
use skillledger.Base.{
  ℕ, ◌≡◌, refl, sym, ap, ◌∙◌, ◌≢◌, inl, inr, true, some, arith, Text, codes, text_eq, text_eq_iff,
  ok, Outcome-cases, >>=-ok, wrap-ok, Dict, lookup, put, lookup-put_self, lookup-put_ne,
}
use mathlib.Core.Path.{subst}
use skillledger.Manifest.{Manifest}
use skillledger.Verify.Types as Verify
use skillledger.Verify.Checks.{read_lockfile, compute_and_compare_hash}
use skillledger.Builder.Archive.{
  Lockfile, BuildWorld, BuildResult, hash_bytes, lockfile_bytes, write_file, write_lockfile,
  make_artifact, lock_of, result_of, write_build, build,
}

files-injective : {a b : Dict Text} → ok a ≡ ok b → a ≡ b
files-injective h = cc

text-injective : {a b : Text} → ok a ≡ ok b → a ≡ b
text-injective h = cc

result-injective : {a b : BuildResult} → ok a ≡ ok b → a ≡ b
result-injective h = cc

module _ {T : Type 0} (w : BuildWorld T) (epoch : ℕ) where
  write_file-put :
      (path bytes : Text) (files files' : Dict Text)
      → write_file w epoch path bytes files ≡ ok files'
      → put path bytes files ≡ files'
  unfolding write_file
  write_file-put path bytes files files' h =
      let (_, allowed, same) = >>=-ok (w.writable path) _ h in files-injective same

  write_lockfile-put :
      (path : Text) (lf : Lockfile) (files files' : Dict Text)
      → write_lockfile w epoch path lf files ≡ ok files'
      → (bytes : Text) × (lockfile_bytes w epoch lf ≡ ok bytes) × (put path bytes files ≡ files')
  unfolding write_lockfile
  write_lockfile-put path lf files files' h =
      let (bytes, encoded, written) = >>=-ok (lockfile_bytes w epoch lf) _ h in
      (
        bytes,
        encoded,
        write_file-put path bytes files files' (wrap-ok (codes "writing lockfile") _ written),
      )

  -- The files of a build: the artifact, and the lockfile with its hash.
  pub record Built (r : BuildResult) (files : Dict Text) : Type 0 where
    pub manifest : Manifest
    pub artifact : Text
    pub bytes : Text
    pub hashed : r.sha256 ≡ hash_bytes w epoch artifact
    pub stored : lookup r.artifact_path files ≡ some artifact
    pub encoded : lockfile_bytes w epoch (lock_of w epoch manifest artifact) ≡ ok bytes
    pub locked : lookup r.lockfile_path files ≡ some bytes

  written-Built :
      (source_dir output_dir artifact : Text) (m : Manifest) (files one two : Dict Text)
      → let made = result_of w epoch source_dir output_dir m artifact in
        write_file w epoch made.artifact_path artifact files ≡ ok one
        → write_lockfile w epoch made.lockfile_path (lock_of w epoch m artifact) one ≡ ok two
        → made.artifact_path ≢ made.lockfile_path
        → Built made two
  written-Built source_dir output_dir artifact m files one two h k ne =
      let made = result_of w epoch source_dir output_dir m artifact in
      let first = write_file-put made.artifact_path artifact files one h in
      let (bytes, encoded, second) = write_lockfile-put made.lockfile_path _ one two k in
      record {
        manifest = m;
        artifact = artifact;
        bytes = bytes;
        hashed = refl;
        stored =
            subst (λ f. lookup made.artifact_path f ≡ some artifact) second
              (lookup-put_ne made.lockfile_path made.artifact_path bytes one (λ e. ne (sym e))
                ∙ subst (λ f. lookup made.artifact_path f ≡ some artifact) first
                    (lookup-put_self made.artifact_path artifact files));
        encoded = encoded;
        locked =
            subst (λ f. lookup made.lockfile_path f ≡ some bytes) second
              (lookup-put_self made.lockfile_path bytes one);
      }

  write_build-Built :
      (source_dir output_dir artifact : Text) (m : Manifest) (r : BuildResult)
      (files files' : Dict Text)
      → write_build w epoch source_dir output_dir m artifact files ≡ (ok r, files')
      → r.artifact_path ≢ r.lockfile_path
      → Built r files'
  unfolding write_build
  write_build-Built source_dir output_dir artifact m r files files' h ne =
      let made = result_of w epoch source_dir output_dir m artifact in
      let lf = lock_of w epoch m artifact in
      elim (Outcome-cases (w.make_directory output_dir)) [
        | inr (e, k) ↦ absurd (ground arith)
        | inl (_, k) ↦ elim (Outcome-cases (write_file w epoch made.artifact_path artifact files)) [
          | inr (e, k') ↦ absurd (ground arith)
          | inl (one, k') ↦
              elim (Outcome-cases (write_lockfile w epoch made.lockfile_path lf one)) [
                | inr (e, k'') ↦ absurd (ground arith)
                | inl (two, k'') ↦
                    let direct : write_build w epoch source_dir output_dir m artifact files
                        ≡ (ok made, two) =
                      rw (write_build, k, k', k'') in
                    let same = result-injective (ap (λ p. p.0) (sym direct ∙ h)) in
                    let two_paths : made.artifact_path ≢ made.lockfile_path =
                      subst (λ (x : BuildResult). x.artifact_path ≢ x.lockfile_path) (sym same)
                        ne in
                    subst (λ x. Built x files') same
                      (subst (Built made) (ap (λ p. p.1) (sym direct ∙ h)) (
                        written-Built source_dir output_dir artifact m files one two k' k''
                          two_paths))
              ]
        ]
      ]

  build-Built :
      (source_dir output_dir : Text) (r : BuildResult) (files files' : Dict Text)
      → build w epoch source_dir output_dir files ≡ (ok r, files')
      → r.artifact_path ≢ r.lockfile_path
      → Built r files'
  unfolding build
  build-Built source_dir output_dir r files files' h ne =
      elim (Outcome-cases (make_artifact w epoch source_dir)) [
        | inr (e, k) ↦ absurd (ground arith)
        | inl ((m, artifact), k) ↦
            let direct : build w epoch source_dir output_dir files
                ≡ write_build w epoch source_dir output_dir m artifact files =
              rw (build, k) in
            write_build-Built source_dir output_dir artifact m r files files' (sym direct ∙ h) ne
      ]

  -- What a build wrote passes the hash check of a verification that reads the same files, decodes
  -- lockfiles as they were encoded and has the same hash: the lockfile is read, and the artifact has
  -- the hash that it says. The artifact and the lockfile must not be the same file.
  pub build-verifies :
      (source_dir output_dir : Text) (r : BuildResult) (files files' : Dict Text) (v : Verify.World)
      → build w epoch source_dir output_dir files ≡ (ok r, files')
      → r.artifact_path ≢ r.lockfile_path
      → ((path bytes : Text) → lookup path files' ≡ some bytes → v.read_file path ≡ ok bytes)
      → ((path bytes : Text) → lookup path files' ≡ some bytes → v.open_file path ≡ ok (ok bytes))
      → ((lf : Lockfile) (bytes : Text)
          → lockfile_bytes w epoch lf ≡ ok bytes
          → v.unmarshal_lockfile bytes
            ≡ ok (record { artifact_id = lf.artifact_id; sha256 = lf.sha256 }))
      → ((bytes : Text) → v.hex (v.hash bytes) ≡ hash_bytes w epoch bytes)
      → (lf : Verify.Lockfile) × (artifact : Text) × (read_lockfile v r.lockfile_path ≡ ok lf)
        × (lookup r.artifact_path files' ≡ some artifact)
        × (compute_and_compare_hash v r.artifact_path lf.sha256 ≡ ok (v.hash artifact))
  unfolding read_lockfile compute_and_compare_hash
  build-verifies source_dir output_dir r files files' v h ne reads opens decodes hashes =
      let b = build-Built source_dir output_dir r files files' h ne in
      let lock = lock_of w epoch b.manifest b.artifact in
      let same : text_eq (v.hex (v.hash b.artifact)) lock.sha256 ≡ true =
        (text_eq_iff (v.hex (v.hash b.artifact)) lock.sha256).1 (hashes b.artifact) in
      (
        record { artifact_id = lock.artifact_id; sha256 = lock.sha256 },
        b.artifact,
        rw (read_lockfile, reads r.lockfile_path b.bytes b.locked, decodes lock b.bytes b.encoded)
            refl,
        b.stored,
        rw (compute_and_compare_hash, opens r.artifact_path b.artifact b.stored, same) refl,
      )
