-- ===== src/ThreatSync/Sync.antt =====
-- doSync of cli/internal/threatsync: the ETags that are kept are those of the cached files.
use skillledger.Base.{
  ◌≡◌, refl, sym, ◌∙◌, ◌≢◌, inl, inr, true, false, ◌++◌, Text, codes, text_eq, text_eq_iff, Outcome,
  ok, err, Outcome-cases, put, lookup-put_self, lookup-put_ne,
}
use mathlib.Core.Path.{subst}
use skillledger.ThreatSync.{
  Metadata, Response, SyncWorld, metadata_file, ioc_cache_file, yara_cache_file, CacheDir,
  load_metadata, fetch_with_etag, atomic_write_file, sync_file, metadata_or_new, write_metadata,
  sync_with, do_sync,
}
use skillledger.ThreatSync.Cached.{Cached, sync_file-Cached, Cached-other, Serves, fetch-Genuine}

module _ (ioc_body yara_body : Text → Text) where
  -- The ETags are those of the two files.
  abbrev pub BothCached : Text → Text → CacheDir → Type 0
  BothCached ioc yara files =
      Cached ioc_body ioc_cache_file ioc files × Cached yara_body yara_cache_file yara files

  abbrev MetadataCached : Outcome Metadata → CacheDir → Type 0
  MetadataCached (err e) files = Unit
  MetadataCached (ok m) files = BothCached m.ioc_etag m.yara_etag files

  -- If there are metadata, their ETags are those of the files.
  abbrev pub Consistent : SyncWorld → CacheDir → Type 0
  Consistent w files = MetadataCached (load_metadata w files) files

  old-BothCached :
      (o : Outcome Metadata) (files : CacheDir)
      → MetadataCached o files
      → BothCached (metadata_or_new o).ioc_etag (metadata_or_new o).yara_etag files
  unfolding metadata_or_new
  old-BothCached (err e) files h = (inl refl, inl refl)
  old-BothCached (ok m) files h = h

differ : (a b : Text) → text_eq a b ≡ false → a ≢ b
differ a b h e = let same : text_eq a b ≡ true = (text_eq_iff a b).1 e in cc

ioc_not_yara : ioc_cache_file ≢ yara_cache_file
unfolding text_eq
ioc_not_yara = differ ioc_cache_file yara_cache_file refl

metadata_not_ioc : metadata_file ≢ ioc_cache_file
unfolding text_eq
metadata_not_ioc = differ metadata_file ioc_cache_file refl

metadata_not_yara : metadata_file ≢ yara_cache_file
unfolding text_eq
metadata_not_yara = differ metadata_file yara_cache_file refl

put-Cached :
    (body : Text → Text) (name bytes etag : Text) (files : CacheDir)
    → metadata_file ≢ name
    → Cached body name etag files
    → Cached body name etag (put metadata_file bytes files)
put-Cached body name bytes etag files ne (inl e) = inl e
put-Cached body name bytes etag files ne (inr h) =
    inr (lookup-put_ne metadata_file name bytes files ne ∙ h)

module _ (w : SyncWorld) (ioc_body yara_body : Text → Text)
    (written : (bytes : Text) (files : CacheDir)
      → atomic_write_file w metadata_file bytes files ≡ ok (put metadata_file bytes files))
    (encoded : (m : Metadata)
      → (bytes : Text) × (w.marshal m ≡ ok bytes) × (w.unmarshal bytes ≡ ok m)) where
  write_metadata-Consistent :
      (m : Metadata) (files : CacheDir)
      → BothCached ioc_body yara_body m.ioc_etag m.yara_etag files
      → Consistent ioc_body yara_body w (write_metadata w m files)
  unfolding write_metadata load_metadata
  write_metadata-Consistent m files (ioc, yara) =
      let (bytes, marshalled, read) = encoded m in
      let files' = put metadata_file bytes files in
      let direct : write_metadata w m files ≡ files' =
        rw (write_metadata, marshalled, written bytes files) in
      let loaded : load_metadata w files' ≡ ok m =
        rw (load_metadata, lookup-put_self metadata_file bytes files, read) in
      subst (Consistent ioc_body yara_body w) (sym direct) (
        subst (λ o. MetadataCached ioc_body yara_body o files') (sym loaded)
          (
            put-Cached ioc_body ioc_cache_file bytes m.ioc_etag files metadata_not_ioc ioc,
            put-Cached yara_body yara_cache_file bytes m.yara_etag files metadata_not_yara yara,
          ))

  module _
      (serves_ioc : (etag token : Text) (resp : Response) (bytes : Text)
        → w.get (w.service_url ++ codes "/v1/ioc") etag token ≡ ok resp
        → resp.status ≡ 200
        → resp.body ≡ ok bytes
        → Serves ioc_body resp bytes)
      (serves_yara : (etag token : Text) (resp : Response) (bytes : Text)
        → w.get (w.service_url ++ codes "/v1/yara") etag token ≡ ok resp
        → resp.status ≡ 200
        → resp.body ≡ ok bytes
        → Serves yara_body resp bytes) where
    sync_with-Consistent :
        (token : Text) (files : CacheDir)
        → Consistent ioc_body yara_body w files
        → Consistent ioc_body yara_body w (sync_with w token files)
    unfolding sync_with
    sync_with-Consistent token files h =
        let old = metadata_or_new (load_metadata w files) in
        let (old_ioc, old_yara) =
          old-BothCached ioc_body yara_body (load_metadata w files) files h in
        let fetched_ioc = fetch_with_etag w (w.service_url ++ codes "/v1/ioc") old.ioc_etag token in
        let ioc = sync_file w ioc_cache_file fetched_ioc old.ioc_etag files in
        let fetched_yara =
          fetch_with_etag w (w.service_url ++ codes "/v1/yara") old.yara_etag token in
        let ioc_cached =
          sync_file-Cached w ioc_body ioc_cache_file fetched_ioc old.ioc_etag files
            (fetch-Genuine w ioc_body ioc_cache_file (w.service_url ++ codes "/v1/ioc") old.ioc_etag
              token (serves_ioc old.ioc_etag token))
            old_ioc in
        let yara_kept =
          Cached-other w ioc_body ioc_cache_file yara_cache_file fetched_ioc old.yara_etag
            old.ioc_etag files yara_body ioc_not_yara old_yara in
        let yara_cached =
          sync_file-Cached w yara_body yara_cache_file fetched_yara old.yara_etag ioc.1
            (fetch-Genuine w yara_body yara_cache_file (w.service_url ++ codes "/v1/yara")
              old.yara_etag token (serves_yara old.yara_etag token))
            yara_kept in
        let ioc_kept =
          Cached-other w yara_body yara_cache_file ioc_cache_file fetched_yara ioc.0 old.yara_etag
            ioc.1 ioc_body (λ e. ioc_not_yara (sym e)) ioc_cached in
        write_metadata-Consistent _ _ (ioc_kept, yara_cached)

    -- A synchronisation that can write its metadata, whatever else fails in it, keeps the cache
    -- consistent: an ETag in the metadata is the one that the service gives to the cached file. It is
    -- assumed that the metadata read back as they were encoded, and that whenever a response with the
    -- status 200 has an ETag, its body is the one of the ETag and has at most 10 MiB.
    pub do_sync-Consistent :
        (files : CacheDir)
        → Consistent ioc_body yara_body w files
        → Consistent ioc_body yara_body w (do_sync w files)
    unfolding do_sync
    do_sync-Consistent files h = elim (Outcome-cases w.ensure_fresh) [
      | inr (e, k) ↦ rw (do_sync, k) h
      | inl (token, k) ↦ elim (Outcome-cases w.make_directory) [
        | inr (e, k') ↦ rw (do_sync, k, k') h
        | inl (_, k') ↦ rw (do_sync, k, k') (sync_with-Consistent token files h)
      ]
    ]
