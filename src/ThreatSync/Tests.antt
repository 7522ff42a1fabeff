-- ===== src/ThreatSync/Tests.antt =====
-- Runs of cli/internal/threatsync, and its theorem at a concrete input.
use skillledger.Base.{
  if◌then◌else◌, Bool-cases, inl, text_eq, ℕ, suc, ◌*◌, ◌^◌, ◌≤◌, ◌≡◌, refl, sym, ap, ◌∙◌, inr,
  false, some, [], ◌∷◌, ◌++◌, map, arith, length, Text, decode_part, decode-encode, codes, text_eq,
  ok, err, lookup, put,
}
use mathlib.Core.Path.{subst}
use skillledger.ThreatSync.{
  Metadata, Response, SyncWorld, metadata_file, ioc_cache_file, CacheDir, load_metadata,
  fetch_with_etag, atomic_write_file, do_sync,
}
use skillledger.ThreatSync.Cached.{Serves}
use skillledger.ThreatSync.Sync.{Consistent, do_sync-Consistent}

abbrev first_code : Text → ℕ
first_code [] = 0
first_code (c ∷ cs) = c

abbrev encode_metadata : Metadata → Text
encode_metadata m = map suc m.ioc_etag ++ (0 ∷ (map suc m.yara_etag ++ (0 ∷ m.fetched_at ∷ [])))

abbrev decode_metadata : Text → Metadata
decode_metadata bytes =
    let (ioc, rest) = decode_part bytes in
    let (yara, last) = decode_part rest in
    record { ioc_etag = ioc; yara_etag = yara; fetched_at = first_code last }

abbrev served : Response
served = record { status = 200; body = ok (codes "rules"); etag = codes "v2" }

-- What comes with the ETag of `served` is not modified.
abbrev answer : Text → Response
answer etag =
    if text_eq etag (codes "v2")
    then record { status = 304; body = ok []; etag = codes "v2" }
    else served

abbrev world : SyncWorld
world = record {
  service_url = codes "https://s";
  ensure_fresh = ok (codes "token");
  make_directory = ok tt;
  get = λ endpoint etag token. ok (answer etag);
  unmarshal = λ bytes. ok (decode_metadata bytes);
  marshal = λ m. ok (encode_metadata m);
  now = 7;
  decimal = λ n. n ∷ [];
  create_temp = λ name. ok tt;
  write_temp = λ name. ok tt;
  close_temp = λ name. ok tt;
  chmod_temp = λ name. ok tt;
  rename_temp = λ name. ok tt;
}

synced : lookup ioc_cache_file (do_sync world []) ≡ some (codes "rules")
unfolding lookup do_sync text_eq
synced = refl

not_modified :
    fetch_with_etag
      (record world { get = λ e t k. ok (record served { status = 304 }) })
      (codes "e")
      (codes "v1")
      (codes "token")
    ≡ ok ([], codes "v1", false)
unfolding fetch_with_etag
not_modified = refl

offline : do_sync (record world { ensure_fresh = err (codes "offline") }) [] ≡ []
unfolding do_sync
offline = refl

abbrev rules : Text → Text
rules etag = codes "rules"

response-injective : {a b : Response} → ok a ≡ ok b → a ≡ b
response-injective h = cc

text-injective : {a b : Text} → ok a ≡ ok b → a ≡ b
text-injective h = cc

served-Serves :
    (resp : Response) (bytes : Text)
    → served ≡ resp
    → resp.body ≡ ok bytes
    → Serves rules resp bytes
served-Serves resp bytes same k =
    let body : codes "rules" ≡ bytes = text-injective (ap (λ (r : Response). r.body) same ∙ k) in
    inr (sym body, subst (λ (b : Text). length b ≤ 10 * 2 ^ 20) body (omega arith))

serves :
    (etag : Text) (resp : Response) (bytes : Text)
    → ok (answer etag) ≡ ok resp
    → resp.status ≡ 200
    → resp.body ≡ ok bytes
    → Serves rules resp bytes
serves etag resp bytes h fine k = elim (Bool-cases (text_eq etag (codes "v2"))) [
  | inl current ↦
      let status : (answer etag).status ≡ 304 = rw current refl in
      let same : (answer etag).status ≡ resp.status =
        ap (λ (r : Response). r.status) (response-injective h) in
      absurd (omega arith)
  | inr other ↦
      let same : served ≡ answer etag = rw other refl in
      served-Serves resp bytes (same ∙ response-injective h) k
]

encoded :
    (m : Metadata) → (bytes : Text) × (world.marshal m ≡ ok bytes) × (world.unmarshal bytes ≡ ok m)
encoded m = (
  encode_metadata m,
  refl,
  rw
      (
        decode-encode m.ioc_etag (map suc m.yara_etag ++ (0 ∷ m.fetched_at ∷ [])),
        decode-encode m.yara_etag (m.fetched_at ∷ []),
      )
      refl,
)

written :
    (bytes : Text) (files : CacheDir)
    → atomic_write_file world metadata_file bytes files ≡ ok (put metadata_file bytes files)
unfolding atomic_write_file
written bytes files = refl

start : Consistent rules rules world []
unfolding load_metadata lookup
start = tt

once : Consistent rules rules world (do_sync world [])
once =
    do_sync-Consistent world rules rules written encoded (λ etag token. serves etag)
      (λ etag token. serves etag) [] start

-- The second synchronisation gets two responses "not modified".
do_sync-Consistent_example : Consistent rules rules world (do_sync world (do_sync world []))
do_sync-Consistent_example =
    do_sync-Consistent world rules rules written encoded (λ etag token. serves etag)
      (λ etag token. serves etag) (do_sync world []) once
