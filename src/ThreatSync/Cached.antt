-- ===== src/ThreatSync/Cached.antt =====
-- One cache file in doSync of cli/internal/threatsync: its ETag and its contents.
use skillledger.Base.{
  ℕ, zero, suc, ◌≤◌, ◌≡◌, refl, ap, ◌∙◌, ◌≢◌, ◌⊎◌, inl, inr, Bool, true, false, some, [], ◌∷◌,
  arith, nat_beq, nat_beq_iff, Bool-cases, length, take, Text, Outcome, ok, err, Outcome-cases,
  lookup, put, lookup-put_self, lookup-put_ne,
}
use mathlib.Core.Path.{subst}
use skillledger.ThreatSync.{
  Response, SyncWorld, max_response_bytes, CacheDir, fetch_with_etag, atomic_write_file, sync_file,
}

-- An ETag is empty, or the file has the body that the service gives this ETag.
abbrev pub Cached : (Text → Text) → Text → Text → CacheDir → Type 0
Cached body name etag files = (etag ≡ []) ⊎ (lookup name files ≡ some (body etag))

module _ (w : SyncWorld) (body : Text → Text) (name : Text) where
  atomic_write_file-put :
      (file bytes : Text) (files files' : CacheDir)
      → atomic_write_file w file bytes files ≡ ok files'
      → put file bytes files ≡ files'
  unfolding atomic_write_file
  atomic_write_file-put file bytes files files' h = ground arith

  -- The response to a fetch for this file: a new body comes with its ETag.
  abbrev pub Genuine : Outcome (Text × Text × Bool) → Type 0
  Genuine (err e) = Unit
  Genuine (ok (bytes, etag, false)) = Unit
  Genuine (ok (bytes, etag, true)) = (etag ≡ []) ⊎ (bytes ≡ body etag)

  pub sync_file-Cached :
      (fetched : Outcome (Text × Text × Bool)) (etag : Text) (files : CacheDir)
      → Genuine fetched
      → Cached body name etag files
      → Cached body name
          (sync_file w name fetched etag files).0
          (sync_file w name fetched etag files).1
  unfolding sync_file
  sync_file-Cached (err e) etag files g h = h
  sync_file-Cached (ok (bytes, new_etag, false)) etag files g h = h
  sync_file-Cached (ok (bytes, new_etag, true)) etag files g h =
      elim (Outcome-cases (atomic_write_file w name bytes files)) [
        | inr (e, k) ↦ rw (sync_file, k) h
        | inl (files', k) ↦
            rw (sync_file, k)
              (elim g [
                | inl e ↦ inl e
                | inr same ↦ inr (
                    subst (λ f. lookup name f ≡ some (body new_etag))
                      (atomic_write_file-put name bytes files files' k)
                      (lookup-put_self name bytes files ∙ ap (λ b. some b) same))
              ])
      ]

  -- A file of another name stays as it is.
  sync_file-other :
      (other : Text) (fetched : Outcome (Text × Text × Bool)) (etag : Text) (files : CacheDir)
      → name ≢ other
      → lookup other (sync_file w name fetched etag files).1 ≡ lookup other files
  unfolding sync_file
  sync_file-other other (err e) etag files ne = refl
  sync_file-other other (ok (bytes, new_etag, false)) etag files ne = refl
  sync_file-other other (ok (bytes, new_etag, true)) etag files ne =
      elim (Outcome-cases (atomic_write_file w name bytes files)) [
        | inr (e, k) ↦ rw (sync_file, k)
        | inl (files', k) ↦
            rw (sync_file, k)
              (subst (λ f. lookup other f ≡ lookup other files)
                (atomic_write_file-put name bytes files files' k)
                (lookup-put_ne name other bytes files ne))
      ]

  pub Cached-other :
      (other : Text) (fetched : Outcome (Text × Text × Bool)) (etag etag' : Text) (files : CacheDir)
      (body' : Text → Text)
      → name ≢ other
      → Cached body' other etag files
      → Cached body' other etag (sync_file w name fetched etag' files).1
  Cached-other other fetched etag etag' files body' ne (inl e) = inl e
  Cached-other other fetched etag etag' files body' ne (inr h) =
      inr (sync_file-other other fetched etag' files ne ∙ h)

take-all : (n : ℕ) (xs : Text) → length xs ≤ n → take n xs ≡ xs
take-all zero [] h = refl
take-all (suc n) [] h = refl
take-all zero (x ∷ xs) h = absurd (ground (arith, h))
take-all (suc n) (x ∷ xs) h = ap (λ ys. x ∷ ys) (take-all n xs (omega (arith, h)))

-- What a response with the status 200 serves: a body that comes with an ETag is that of the ETag, and
-- within the limit.
abbrev pub Serves : (Text → Text) → Response → Text → Type 0
Serves body resp bytes =
    (resp.etag ≡ []) ⊎ ((bytes ≡ body resp.etag) × (length bytes ≤ max_response_bytes))

Serves-Genuine :
    (w : SyncWorld) (body : Text → Text) (name : Text) (resp : Response) (bytes : Text)
    → Serves body resp bytes
    → Genuine w body name (ok (take max_response_bytes bytes, resp.etag, true))
Serves-Genuine w body name resp bytes (inl e) = inl e
Serves-Genuine w body name resp bytes (inr (same, le)) =
    inr (take-all max_response_bytes bytes le ∙ same)

pub fetch-Genuine :
    (w : SyncWorld) (body : Text → Text) (name endpoint etag token : Text)
    → ((resp : Response) (bytes : Text)
        → w.get endpoint etag token ≡ ok resp
        → resp.status ≡ 200
        → resp.body ≡ ok bytes
        → Serves body resp bytes)
    → Genuine w body name (fetch_with_etag w endpoint etag token)
unfolding fetch_with_etag
fetch-Genuine w body name endpoint etag token serves =
    elim (Outcome-cases (w.get endpoint etag token)) [
      | inr (e, h) ↦ rw (fetch_with_etag, h) tt
      | inl (resp, h) ↦ elim (Bool-cases (nat_beq resp.status 304)) [
        | inl same ↦ rw (fetch_with_etag, h, same) tt
        | inr new_ ↦ elim (Bool-cases (nat_beq resp.status 200)) [
          | inr other ↦ rw (fetch_with_etag, h, new_, other) tt
          | inl fine ↦ elim (Outcome-cases resp.body) [
            | inr (e, k) ↦ rw (fetch_with_etag, h, new_, fine, k) tt
            | inl (bytes, k) ↦
                rw (fetch_with_etag, h, new_, fine, k)
                  (Serves-Genuine w body name resp bytes
                    (serves resp bytes h ((nat_beq_iff resp.status 200).0 fine) k))
          ]
        ]
      ]
    ]
