-- ===== src/Builder/Tests.antt =====
-- Runs of cli/internal/builder, and its theorems at concrete inputs.
use skillledger.Base.{
  zero, suc, ◌≡◌, refl, sym, ap, ◌∙◌, ◌≢◌, true, false, none, some, [], ◌∷◌, ◌++◌, map,
  append_assoc, Text, codes, text_eq, text_eq_iff, Outcome, ok, err, ◌>>=◌, Dict, lookup,
}
use mathlib.Core.List.Permᴰ.{cons, swap}
use skillledger.Manifest.{Manifest, no_source}
use skillledger.Verify.Types as Verify
use skillledger.Verify.Checks.{read_lockfile, compute_and_compare_hash}
use skillledger.Builder.{FileEntry, Visit, Collector, new_collector, is_ignored, visit, collect}
use skillledger.Builder.Ordered.{DistinctPaths, collect-perm}
use skillledger.Builder.Archive.{Archiver, Lockfile, BuildWorld, BuildResult, lockfile_bytes, build}
use skillledger.Builder.Locked.{build-verifies}

-- Patterns without wildcards.
abbrev collector : Collector
collector = new_collector text_eq (λ n. n ∷ [])

abbrev file : Text → Text → Visit
file rel content = record {
  path = codes "src/" ++ rel;
  rel = rel;
  error = none;
  is_dir = false;
  symlink = false;
  regular = true;
  opened = ok (ok content);
}

abbrev first : Visit
first = file (codes "a.md") (codes "A")

abbrev second : Visit
second = file (codes "b.md") (codes "B")

abbrev hidden : Visit
hidden = file (codes ".git/HEAD") (codes "ref")

abbrev entry : Text → Text → FileEntry
entry rel content = record { rel_path = rel; content = content }

under_git : is_ignored collector (codes ".git/HEAD") (codes ".git/**" ∷ []) ≡ true
unfolding is_ignored
under_git = refl

not_under_git : is_ignored collector (codes ".github/x") (codes ".git/**" ∷ []) ≡ false
unfolding is_ignored
not_under_git = refl

traversal :
    visit collector [] (file (codes "../x") []) ≡ err (codes "path traversal detected: ../x")
unfolding visit
traversal = refl

-- Two dots inside a name count as a traversal.
dotted_name :
    visit collector [] (file (codes "a..b") []) ≡ err (codes "path traversal detected: a..b")
unfolding visit
dotted_name = refl

collected :
    collect collector (err []) (first ∷ hidden ∷ second ∷ [])
    ≡ ok (entry (codes "a.md") (codes "A") ∷ entry (codes "b.md") (codes "B") ∷ [])
unfolding collect new_collector
collected = refl

differ : {a b : Text} → text_eq a b ≡ false → a ≢ b
differ {a} {b} h e = let same : text_eq a b ≡ true = (text_eq_iff a b).1 e in cc

distinct : DistinctPaths (first ∷ hidden ∷ second ∷ [])
unfolding text_eq
distinct = ((differ refl, (differ refl, tt)), ((differ refl, tt), (tt, tt)))

collect-perm_example :
    collect collector (err []) (first ∷ second ∷ hidden ∷ [])
    ≡ ok (entry (codes "a.md") (codes "A") ∷ entry (codes "b.md") (codes "B") ∷ [])
collect-perm_example =
    collect-perm collector (err []) (first ∷ hidden ∷ second ∷ []) (first ∷ second ∷ hidden ∷ [])
      (entry (codes "a.md") (codes "A") ∷ entry (codes "b.md") (codes "B") ∷ [])
      (cons refl (swap refl refl)) distinct collected

abbrev manifest : Manifest
manifest = record {
  skill_ledger = 1;
  id = codes "skill";
  version = codes "1";
  kind = codes "skill";
  source = no_source;
  capabilities = record { filesystem = []; network = []; secrets = []; tools = [] };
}

-- Names and contents one after the other.
abbrev archiver : Archiver Text
archiver = record {
  new_writer = ok [];
  write_header = λ tw h. ok (tw ++ h.name);
  write = λ tw content. ok (tw ++ content);
  close_tar = ok;
  close_gzip = ok;
}

-- Every byte one higher, and a zero at the end.
abbrev encode_part : Text → Text
encode_part t = map suc t ++ 0 ∷ []

unfoldable decode_part : Text → Text × Text
decode_part [] = ([], [])
decode_part (zero ∷ cs) = ([], cs)
decode_part (suc n ∷ cs) = let (part, rest) = decode_part cs in (n ∷ part, rest)

decode-encode : (t rest : Text) → decode_part (map suc t ++ 0 ∷ rest) ≡ (t, rest)
unfolding decode_part
decode-encode [] rest = refl
decode-encode (n ∷ t) rest = ap (λ p. (n ∷ p.0, p.1)) (decode-encode t rest)

abbrev build_world : BuildWorld Text
build_world = record {
  codec = record {
    yaml_raw = ok;
    json_marshal = ok;
    validator = ok (λ json. none);
    yaml_manifest = λ yaml. ok manifest;
    show = λ n. n ∷ [];
  };
  json = record {
    unmarshal = ok;
    string_value = λ s. s;
    nil_value = codes "null";
    marshal_string = λ s. s;
    marshal_tool = λ name description schema. ok name;
    transform = ok;
    sha256 = λ bytes. bytes;
    hex = λ bytes. bytes;
  };
  archiver = archiver;
  collector = collector;
  join = λ a b. a ++ (codes "/" ++ b);
  base = λ p. p;
  decimal = λ n. n ∷ [];
  read_file = λ path. ok [];
  visits = λ dir. second ∷ first ∷ [];
  marshal_manifest = λ m. ok m.id;
  marshal_lockfile = λ lf. ok (map suc lf.artifact_id ++ 0 ∷ (map suc lf.sha256 ++ 0 ∷ []));
  make_directory = λ dir. ok tt;
  writable = λ path. ok tt;
  format_time = λ n. n ∷ [];
}

-- The manifest, then the files by name.
abbrev artifact : Text
artifact = codes "skillledger.jsonskilla.mdAb.mdB"

abbrev built : BuildResult
built = record {
  artifact_path = codes "out/skill-1-skillledger..skillledger.tar.gz";
  lockfile_path = codes "src/skill-lock.json";
  sha256 = artifact;
  filename = codes "skill-1-skillledger..skillledger.tar.gz";
}

abbrev written : Dict Text
written =
    (codes "out/skill-1-skillledger..skillledger.tar.gz", artifact)
    ∷ (
      codes "src/skill-lock.json",
      encode_part (codes "skill") ++ (encode_part artifact ++ 10 ∷ []),
    )
    ∷ []

build_runs : build build_world 0 (codes "src") (codes "out") [] ≡ (ok built, written)
unfolding build new_collector
build_runs = refl

abbrev stored : Text → Outcome Text
stored path = elim (lookup path written) [ none ↦ err [] | some bytes ↦ ok bytes ]

abbrev decode_lockfile : Text → Outcome Verify.Lockfile
decode_lockfile bytes =
    let (id, rest) = decode_part bytes in
    ok (record { artifact_id = id; sha256 = (decode_part rest).0 })

abbrev verify_world : Verify.World
verify_world = record {
  codec = build_world.codec;
  dir = λ path. path;
  join = λ a b. a ++ b;
  read_file = stored;
  open_file = λ path. stored path >>= λ bytes. ok (ok bytes);
  file_size = λ path. ok 1;
  unmarshal_lockfile = decode_lockfile;
  marshal_leaf = λ id hash address. ok id;
  hash = λ bytes. bytes;
  hex = λ bytes. bytes;
  show = λ n. n ∷ [];
}

reads : (path bytes : Text) → lookup path written ≡ some bytes → stored path ≡ ok bytes
unfolding lookup text_eq
reads path bytes h = rw (h)

opens :
    (path bytes : Text)
    → lookup path written ≡ some bytes
    → (stored path >>= λ found. ok (ok found)) ≡ ok (ok bytes)
opens path bytes h = ap (λ o. o >>= λ found. ok (ok found)) (reads path bytes h)

decode_two :
    (id hash : Text)
    → decode_lockfile (map suc id ++ (0 ∷ (map suc hash ++ (0 ∷ 10 ∷ []))))
      ≡ ok (record { artifact_id = id; sha256 = hash })
decode_two id hash =
    rw (decode-encode id (map suc hash ++ (0 ∷ 10 ∷ [])), decode-encode hash (10 ∷ []))

text-injective : {a b : Text} → ok a ≡ ok b → a ≡ b
text-injective h = cc

decodes :
    (lf : Lockfile) (bytes : Text)
    → lockfile_bytes build_world 0 lf ≡ ok bytes
    → decode_lockfile bytes ≡ ok (record { artifact_id = lf.artifact_id; sha256 = lf.sha256 })
unfolding lockfile_bytes
decodes lf bytes h =
    let id = map suc lf.artifact_id in
    let hash = map suc lf.sha256 in
    let direct : (id ++ (0 ∷ (hash ++ 0 ∷ []))) ++ 10 ∷ [] ≡ bytes = text-injective h in
    let flat : (id ++ (0 ∷ (hash ++ 0 ∷ []))) ++ 10 ∷ [] ≡ id ++ (0 ∷ (hash ++ (0 ∷ 10 ∷ []))) =
      append_assoc id (0 ∷ (hash ++ 0 ∷ [])) (10 ∷ [])
      ∙ ap (λ t. id ++ (0 ∷ t)) (append_assoc hash (0 ∷ []) (10 ∷ [])) in
    ap decode_lockfile (sym direct ∙ flat) ∙ decode_two lf.artifact_id lf.sha256

apart : built.artifact_path ≢ built.lockfile_path
unfolding text_eq
apart = differ refl

build-verifies_example :
    (lf : Verify.Lockfile) × (bytes : Text) × (read_lockfile verify_world
        (codes "src/skill-lock.json")
      ≡ ok lf)
    × (lookup built.artifact_path written ≡ some bytes)
    × (compute_and_compare_hash verify_world built.artifact_path lf.sha256 ≡ ok bytes)
build-verifies_example =
    build-verifies build_world 0 (codes "src") (codes "out") built [] written verify_world
      build_runs apart reads opens decodes (λ bytes. refl)
