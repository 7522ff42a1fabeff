-- ===== src/ThreatSync.antt =====
-- cli/internal/threatsync: the cache of threat intelligence. HTTP, credentials, encoding/json and the
-- steps of writing a file are arguments; the goroutine and its channel are not modelled.
mod Cached
pub mod Sync
mod Tests
use skillledger.Base.{
  ℕ, ◌*◌, ◌^◌, Bool, true, false, none, some, [], ◌++◌, nat_beq, if◌then◌else◌, take, Text, codes,
  Outcome, ok, err, ◌>>=◌, ◌>>◌, wrap, Dict, lookup, put,
}

-- Metadata
pub record Metadata : Type 0 where
  pub ioc_etag : Text
  pub yara_etag : Text
  pub fetched_at : ℕ

-- http.Response: the status, what reading the body gives, and the header ETag.
pub record Response : Type 0 where
  pub status : ℕ
  pub body : Outcome Text
  pub etag : Text

-- `get` sends a request to an endpoint with an ETag, which is left out if it is empty, and a token.
-- The fields from `create_temp` on are the steps of atomicWriteFile for a file.
pub record SyncWorld : Type 0 where
  pub service_url : Text
  pub ensure_fresh : Outcome Text
  pub make_directory : Outcome (Unit {0})
  pub get : Text → Text → Text → Outcome Response
  pub unmarshal : Text → Outcome Metadata
  pub marshal : Metadata → Outcome Text
  pub now : ℕ
  pub decimal : ℕ → Text
  pub create_temp : Text → Outcome (Unit {0})
  pub write_temp : Text → Outcome (Unit {0})
  pub close_temp : Text → Outcome (Unit {0})
  pub chmod_temp : Text → Outcome (Unit {0})
  pub rename_temp : Text → Outcome (Unit {0})

-- maxResponseBytes
abbrev pub max_response_bytes : ℕ
max_response_bytes = 10 * 2 ^ 20

abbrev pub metadata_file : Text
metadata_file = codes "metadata.json"

abbrev pub ioc_cache_file : Text
ioc_cache_file = codes "ioc.json"

abbrev pub yara_cache_file : Text
yara_cache_file = codes "yara.json"

-- The cache directory: the files by name.
abbrev pub CacheDir : Type 0
CacheDir = Dict Text

-- LoadMetadata
unfoldable pub load_metadata : SyncWorld → CacheDir → Outcome Metadata
unfolding lookup
load_metadata w files = elim (lookup metadata_file files) [
  | none ↦ err (codes "reading cache metadata: no such file")
  | some bytes ↦ wrap (codes "parsing cache metadata") (w.unmarshal bytes)
]

-- fetchWithETag: the body, the new ETag and whether there is something new. A longer body is cut.
unfoldable pub fetch_with_etag : SyncWorld → Text → Text → Text → Outcome (Text × Text × Bool)
fetch_with_etag w endpoint etag token = do
  resp ← wrap (codes "HTTP request failed") (w.get endpoint etag token)
  if nat_beq resp.status 304
      then ok ([], etag, false)
      else if nat_beq resp.status 200
      then (do
        body ← wrap (codes "reading response") resp.body
        ok (take max_response_bytes body, resp.etag, true))
      else err
          (codes "unexpected status " ++ (w.decimal resp.status ++ (codes " from " ++ endpoint)))

-- atomicWriteFile: the file is there after the rename, or as it was.
unfoldable pub atomic_write_file : SyncWorld → Text → Text → CacheDir → Outcome CacheDir
unfolding put
atomic_write_file w name bytes files = do
  wrap (codes "creating temp file") (w.create_temp name)
  wrap (codes "writing temp file") (w.write_temp name)
  wrap (codes "closing temp file") (w.close_temp name)
  wrap (codes "setting permissions") (w.chmod_temp name)
  wrap (codes "renaming temp file") (w.rename_temp name)
  ok (put name bytes files)

-- Steps 4 and 5 of doSync, for one cache file: the ETag afterwards and the files.
unfoldable pub sync_file :
    SyncWorld → Text → Outcome (Text × Text × Bool) → Text → CacheDir → Text × CacheDir
unfolding atomic_write_file
sync_file w name (err e) etag files = (etag, files)
sync_file w name (ok (body, new_etag, false)) etag files = (etag, files)
sync_file w name (ok (body, new_etag, true)) etag files =
    elim (atomic_write_file w name body files) [
      | err e ↦ (etag, files)
      | ok files' ↦ (new_etag, files')
    ]

unfoldable pub metadata_or_new : Outcome Metadata → Metadata
metadata_or_new (err e) = record { ioc_etag = []; yara_etag = []; fetched_at = 0 }
metadata_or_new (ok m) = m

-- Step 6 of doSync.
unfoldable pub write_metadata : SyncWorld → Metadata → CacheDir → CacheDir
unfolding atomic_write_file
write_metadata w m files = elim (w.marshal m) [
  | err e ↦ files
  | ok bytes ↦ elim (atomic_write_file w metadata_file bytes files) [
    | err e ↦ files
    | ok files' ↦ files'
  ]
]

-- Steps 3 to 6 of doSync.
unfoldable pub sync_with : SyncWorld → Text → CacheDir → CacheDir
unfolding load_metadata metadata_or_new fetch_with_etag sync_file write_metadata
sync_with w token files =
    let old = metadata_or_new (load_metadata w files) in
    let fetched_ioc = fetch_with_etag w (w.service_url ++ codes "/v1/ioc") old.ioc_etag token in
    let ioc = sync_file w ioc_cache_file fetched_ioc old.ioc_etag files in
    let fetched_yara = fetch_with_etag w (w.service_url ++ codes "/v1/yara") old.yara_etag token in
    let yara = sync_file w yara_cache_file fetched_yara old.yara_etag ioc.1 in
    write_metadata w (record { ioc_etag = ioc.0; yara_etag = yara.0; fetched_at = w.now }) yara.1

-- doSync
unfoldable pub do_sync : SyncWorld → CacheDir → CacheDir
unfolding sync_with
do_sync w files = elim w.ensure_fresh [
  | err e ↦ files
  | ok token ↦ elim w.make_directory [ err e ↦ files | ok _ ↦ sync_with w token files ]
]
