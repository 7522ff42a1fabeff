-- ===== src/UpdateCheck/Throttle.antt =====
-- cli/internal/updatecheck/check.go: a check within a day of one that asked the registry.
use skillledger.Base.{
  ℕ, ◌+◌, ◌<◌, ◌≡◌, refl, some, lt→ltb, nat_eq, Text, text_eq_inst, Outcome, ok, Dict, lookup,
}
use skillledger.UpdateCheck.{
  UpdateWorld, CacheEntry, cache_ttl, cache_path, compare_versions, fetch_version, check_registry,
  do_check, read_cache, write_cache,
}

-- The same machine at another time, with what the registry then answers.
abbrev pub later : UpdateWorld → ℕ → (Text → Outcome (ℕ × Outcome Text)) → UpdateWorld
later w t answer = record w { now = t; get = answer }

-- An entry younger than a day is the answer.
do_check-cached :
    (w : UpdateWorld) (current endpoint : Text) (files : Dict Text) (entry : CacheEntry)
    → read_cache w (cache_path w) files ≡ ok entry
    → w.now < entry.last_check + cache_ttl
    → do_check w current endpoint files ≡ (compare_versions w current entry.latest_version, files)
unfolding do_check
do_check-cached w current endpoint files entry read soon =
    rw (do_check, read, lt→ltb w.now (entry.last_check + cache_ttl) soon) refl

module _ (w : UpdateWorld)
    (round_trip : (e : CacheEntry) (bytes : Text)
      → w.marshal_entry e ≡ ok bytes
      → w.unmarshal_entry bytes ≡ ok e)
    (writes : (path bytes : Text) (files : Dict Text)
      → lookup path (w.write_file path bytes files) ≡ some bytes) where
  -- What was written is read back.
  pub read_cache-write_cache :
      (path : Text) (e : CacheEntry) (bytes : Text) (files : Dict Text)
      → w.make_directory (w.dir path) ≡ ok tt
      → w.marshal_entry e ≡ ok bytes
      → read_cache w path (write_cache w path e files) ≡ ok e
  unfolding read_cache write_cache
  read_cache-write_cache path e bytes files made m =
      rw (read_cache, write_cache, made, m, writes path bytes files) (round_trip e bytes m)

  -- A check that asks the registry and can write its answer is the last one to ask for a day: until
  -- then a check of any version answers from the cache, whatever the registry says, and changes no
  -- file.
  pub do_check-throttled :
      (current endpoint version bytes : Text) (files : Dict Text)
      → fetch_version w endpoint ≡ some version
      → w.make_directory (w.dir (cache_path w)) ≡ ok tt
      → w.marshal_entry (record { last_check = w.now; latest_version = version }) ≡ ok bytes
      → (t : ℕ) (answer : Text → Outcome (ℕ × Outcome Text)) (current' endpoint' : Text)
      → t < w.now + cache_ttl
      → do_check (later w t answer) current' endpoint' (check_registry w current endpoint files).1
        ≡ (compare_versions w current' version, (check_registry w current endpoint files).1)
  unfolding do_check check_registry
  do_check-throttled current endpoint version bytes files fetched made m t answer current' endpoint'
        soon =
      do_check-cached (later w t answer) current' endpoint'
        (check_registry w current endpoint files).1
        (record { last_check = w.now; latest_version = version })
        (rw (check_registry, fetched)
          (read_cache-write_cache (cache_path w)
            (record { last_check = w.now; latest_version = version }) bytes files made m))
        soon
