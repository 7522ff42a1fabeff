-- ===== src/Proxy/TrustVerifier/Tests.antt =====
-- Runs of proxy/trust_verifier.go with a small sample of everything that it calls, and its theorems
-- on them.
use skillledger.Base.{
  ℕ, ◌≤◌, ◌<◌, ◌≡◌, refl, Bool, true, false, none, some, [], ◌∷◌, arith, length, Text, codes,
  text_eq, ok, err, lookup, put,
}
use skillledger.Manifest.{Codec, parse_and_validate, no_source}
use skillledger.Verify.Types.{World}
use skillledger.Verify.Pipeline.{verify}
use skillledger.Verify.Checks.{read_lockfile}
use skillledger.Proxy.TrustVerifier.{
  verified, unverified, VerificationResult, Config, run_verification, State, init,
  start_verification, get_tier, get_result, write_result, resolve_artifact,
}
use skillledger.Proxy.TrustVerifier.Tiers.{no_artifact_unverified}
use skillledger.Proxy.TrustVerifier.Cache.{
  count, start, finish, Reach, here, next, flights, Earned, get_tier_sound, one_verification,
}

abbrev codec : Codec
codec = record {
  yaml_raw = ok;
  json_marshal = ok;
  validator = ok (λ json. none);
  yaml_manifest = λ yaml. ok (record {
    skill_ledger = 1;
    id = codes "s";
    version = codes "1";
    kind = codes "skill";
    source = no_source;
    capabilities = record { filesystem = []; network = []; secrets = []; tools = [] };
  });
  show = λ n. n ∷ [];
}

-- Every file holds its own name, the hash is the identity, and an empty path cannot be opened.
abbrev world : World
world = record {
  codec = codec;
  dir = λ path. path;
  join = λ d name. name;
  read_file = ok;
  open_file = λ path. elim path [ [] ↦ err (codes "no such file") | c ∷ cs ↦ ok (ok (c ∷ cs)) ];
  file_size = λ path. ok (length path);
  unmarshal_lockfile = λ bytes. ok (record { artifact_id = codes "s"; sha256 = codes "s.tar.gz" });
  marshal_leaf = λ id sha address. ok address;
  hash = λ bytes. bytes;
  hex = λ bytes. bytes;
  show = λ n. n ∷ [];
}

abbrev config : Bool → Config
config there = record {
  fs = world;
  exists = λ path. there;
  os = world;
  pipeline = record {
    verify_bundle =
        λ path digest. ok (record { signer_identity = codes "dev"; issuer = codes "ca" });
    lookup_entry = λ id. ok (record { sha256 = codes "s.tar.gz"; log_index = 7 });
    evaluate =
        λ input. ok (record { decision = codes "allow"; violations = none; warnings = none });
    skip_tlog = false;
    proof_verifier = none;
  };
  lockfile_dir = codes "locks";
}

abbrev snapshot : ℕ → Config
snapshot now = config true

abbrev skill : Text
skill = codes "s"

-- A query and the end of the verification that it started.
abbrev asked : State
asked = start_verification skill init

abbrev done : State
done = write_result skill (run_verification (snapshot 5) 5 skill) asked

busy : 0 < count skill asked.running
unfolding start_verification lookup text_eq
busy = omega arith

to_asked : Reach snapshot init asked
to_asked = next here (start skill)

to_done : Reach snapshot init done
to_done = next to_asked (finish 5 skill busy)

first_query : (get_tier skill init).0 ≡ unverified
unfolding get_tier lookup
first_query = refl

second_query : (get_tier skill done).0 ≡ verified
unfolding get_tier lookup write_result put text_eq run_verification read_lockfile verify
    parse_and_validate
second_query = refl

get_tier_sound_example : Earned snapshot skill
get_tier_sound_example = get_tier_sound snapshot done skill to_done second_query

one_verification_example :
    (count skill asked.running ≡ flights (get_result skill asked)) × (count skill asked.running ≤ 1)
one_verification_example = one_verification snapshot asked skill to_asked

abbrev outcome : VerificationResult
outcome = record (run_verification (snapshot 5) 5 skill) { in_flight = false }

is_done : get_result skill done ≡ some outcome
unfolding get_result lookup write_result put start_verification text_eq
is_done = refl

resolved : resolve_artifact (config false) skill ≡ ok (codes "s")
unfolding resolve_artifact read_lockfile
resolved = refl

no_artifact_unverified_example : (run_verification (config false) 5 skill).tier ≡ unverified
no_artifact_unverified_example =
    no_artifact_unverified (config false) 5 skill (codes "s") (codes "no such file") resolved refl
      refl
