-- ===== src/Builder/Archive.antt =====
-- archive.go, lockfile.go and builder.go of cli/internal/builder. gzip and tar are arguments, as are
-- paths, encoding/json and the file system. WriteFile writes all or nothing.
use skillledger.Base.{
  ℕ, none, some, List, [], ◌∷◌, ◌++◌, length, take, Text, codes, Outcome, ok, err, ◌>>=◌, ◌>>◌,
  wrap, Dict, put,
}
use skillledger.Manifest.{Source, Manifest, Codec, Parsed, parse_and_validate}
use skillledger.Proxy.Pinning.{Json, canonicalize}
use skillledger.Builder.{FileEntry, Visit, Collector, collect}

-- ResolveEpoch; `parse_int` is strconv.ParseInt on SOURCE_DATE_EPOCH, which is empty if it is not
-- set. Times before 1970 are not modelled.
unfoldable pub resolve_epoch : (Text → Outcome ℕ) → Text → ℕ
resolve_epoch parse_int [] = 0
resolve_epoch parse_int (c ∷ cs) = elim (parse_int (c ∷ cs)) [ err e ↦ 0 | ok secs ↦ secs ]

-- The fields of tar.Header that writeEntry sets to something else than zero.
pub record Header : Type 0 where
  pub name : Text
  pub size : ℕ
  pub mode : ℕ
  pub mod_time : ℕ

-- The tar writer on top of the gzip writer, level 6 and with the byte 0xFF for the system.
pub record Archiver (T : Type 0) : Type 0 where
  pub new_writer : Outcome T
  pub write_header : T → Header → Outcome T
  pub write : T → Text → Outcome T
  pub close_tar : T → Outcome T
  pub close_gzip : T → Outcome Text

module _ {T : Type 0} (a : Archiver T) (epoch : ℕ) where
  -- writeEntry
  unfoldable pub write_entry : Text → Text → T → Outcome T
  write_entry name content tw = do
    tw' ←
        a.write_header tw
          (record { name = name; size = length content; mode = 420; mod_time = epoch })
    a.write tw' content

  unfoldable pub write_entries : List FileEntry → T → Outcome T
  unfolding write_entry
  write_entries [] tw = ok tw
  write_entries (f ∷ fs) tw = do
    tw' ← wrap (codes "write entry " ++ f.rel_path) (write_entry f.rel_path f.content tw)
    write_entries fs tw'

  -- CreateDeterministicArchive
  unfoldable pub create_deterministic_archive : Text → List FileEntry → Outcome Text
  unfolding write_entry write_entries
  create_deterministic_archive manifest_json files = do
    tw ← wrap (codes "create gzip writer") a.new_writer
    first ←
        wrap (codes "write manifest entry")
          (write_entry (codes "skillledger.json") manifest_json tw)
    all ← write_entries files first
    closed ← wrap (codes "close tar writer") (a.close_tar all)
    wrap (codes "close gzip writer") (a.close_gzip closed)

-- Lockfile; Provenance and LogEntryID stay empty here.
pub record Lockfile : Type 0 where
  pub skill_ledger : ℕ
  pub artifact_id : Text
  pub version : Text
  pub sha256 : Text
  pub content_address : Text
  pub built_at : Text
  pub source : Source

-- What a build uses. `visits` are those of the walk of a directory, and `writable` tells whether a
-- file can be written.
pub record BuildWorld (T : Type 0) : Type 0 where
  pub codec : Codec
  pub json : Json
  pub archiver : Archiver T
  pub collector : Collector
  pub join : Text → Text → Text
  pub base : Text → Text
  pub decimal : ℕ → Text
  pub read_file : Text → Outcome Text
  pub visits : Text → List Visit
  pub marshal_manifest : Manifest → Outcome Text
  pub marshal_lockfile : Lockfile → Outcome Text
  pub make_directory : Text → Outcome (Unit {0})
  pub writable : Text → Outcome (Unit {0})
  pub format_time : ℕ → Text

-- BuildResult
pub record BuildResult : Type 0 where
  pub artifact_path : Text
  pub lockfile_path : Text
  pub sha256 : Text
  pub filename : Text

module _ {T : Type 0} (w : BuildWorld T) (epoch : ℕ) where
  -- scanner.HashBytes
  abbrev pub hash_bytes : Text → Text
  hash_bytes bytes = w.json.hex (w.json.sha256 bytes)

  -- ContentAddressedName
  unfoldable pub content_addressed_name : Text → Text → Text → Text
  content_addressed_name id version artifact =
      w.base id
      ++ (codes "-"
          ++ (w.base version
              ++ (codes "-" ++ (take 12 (hash_bytes artifact) ++ codes ".skillledger.tar.gz"))))

  -- The bytes that WriteLockfile writes.
  unfoldable pub lockfile_bytes : Lockfile → Outcome Text
  unfolding canonicalize
  lockfile_bytes lf = do
    json ← wrap (codes "writing lockfile") (w.marshal_lockfile lf)
    canonical ← wrap (codes "writing lockfile") (canonicalize w.json json)
    ok (canonical ++ 10 ∷ [])

  -- afero.WriteFile
  unfoldable pub write_file : Text → Text → Dict Text → Outcome (Dict Text)
  unfolding put
  write_file path bytes files = do w.writable path; ok (put path bytes files)

  -- WriteLockfile
  unfoldable pub write_lockfile : Text → Lockfile → Dict Text → Outcome (Dict Text)
  unfolding lockfile_bytes write_file
  write_lockfile path lf files = do
    bytes ← lockfile_bytes lf
    wrap (codes "writing lockfile") (write_file path bytes files)

  -- The checks on the results of ParseAndValidate; without an error there is a manifest.
  unfoldable pub loaded_manifest : Parsed → Outcome Manifest
  loaded_manifest p = elim p.error [
    | some e ↦ err (codes "reading manifest: " ++ e)
    | none ↦ elim p.validation_errors [
      | v ∷ vs ↦ err (
          codes "manifest validation: "
          ++ (w.decimal (length (v ∷ vs)) ++ (codes " errors: " ++ v.message)))
      | [] ↦ elim p.manifest [ none ↦ err (codes "no manifest") | some m ↦ ok m ]
    ]
  ]

  -- Steps 1 to 4 of Build: the manifest and the bytes of the artifact.
  unfoldable pub make_artifact : Text → Outcome (Manifest × Text)
  unfolding parse_and_validate loaded_manifest collect canonicalize create_deterministic_archive
  make_artifact source_dir = do
    yaml ←
        wrap (codes "reading manifest") (w.read_file (w.join source_dir (codes "skillledger.yaml")))
    m ← loaded_manifest (parse_and_validate w.codec yaml)
    files ← wrap (codes "collecting files") (
        collect w.collector (w.read_file (w.join source_dir (codes ".skillledgerignore")))
          (w.visits source_dir))
    json ← wrap (codes "canonicalizing manifest") (w.marshal_manifest m)
    canonical ← wrap (codes "canonicalizing manifest") (canonicalize w.json json)
    artifact ←
        wrap (codes "creating archive")
          (create_deterministic_archive w.archiver epoch canonical files)
    ok (m, artifact)

  abbrev pub lock_of : Manifest → Text → Lockfile
  lock_of m artifact = record {
    skill_ledger = 1;
    artifact_id = m.id;
    version = m.version;
    sha256 = hash_bytes artifact;
    content_address = codes "sha256-" ++ hash_bytes artifact;
    built_at = w.format_time epoch;
    source = m.source;
  }

  abbrev pub result_of : Text → Text → Manifest → Text → BuildResult
  result_of source_dir output_dir m artifact =
      let filename = content_addressed_name m.id m.version artifact in
      record {
        artifact_path = w.join output_dir filename;
        lockfile_path = w.join source_dir (codes "skill-lock.json");
        sha256 = hash_bytes artifact;
        filename = filename;
      }

  -- Steps 5 to 7 of Build, with the files that are there afterwards: an error of the lockfile leaves
  -- the artifact.
  unfoldable pub write_build :
      Text → Text → Manifest → Text → Dict Text → Outcome BuildResult × Dict Text
  unfolding content_addressed_name write_file write_lockfile
  write_build source_dir output_dir m artifact files =
      let r = result_of source_dir output_dir m artifact in
      elim (w.make_directory output_dir) [
        | err e ↦ (err (codes "creating output directory: " ++ e), files)
        | ok _ ↦ elim (write_file r.artifact_path artifact files) [
          | err e ↦ (err (codes "writing artifact: " ++ e), files)
          | ok files' ↦ elim (write_lockfile r.lockfile_path (lock_of m artifact) files') [
            | err e ↦ (err (codes "writing lockfile: " ++ e), files')
            | ok files'' ↦ (ok r, files'')
          ]
        ]
      ]

  -- Build
  unfoldable pub build : Text → Text → Dict Text → Outcome BuildResult × Dict Text
  unfolding make_artifact write_build
  build source_dir output_dir files = elim (make_artifact source_dir) [
    | err e ↦ (err e, files)
    | ok (m, artifact) ↦ write_build source_dir output_dir m artifact files
  ]
