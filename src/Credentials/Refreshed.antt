-- ===== src/Credentials/Refreshed.antt =====
-- cli/internal/credentials/credentials.go: when a token is renewed, and what is stored then.
use skillledger.Base.{
  ℕ, ◌+◌, ◌-◌, ◌%◌, ◌^◌, ◌≤◌, ◌<◌, ◌≡◌, refl, sym, ◌↔◌, ◌⊎◌, inl, inr, true, false, [], arith,
  leb→le, nat_eq, Bool-cases, Text, text_eq_inst, ok, Outcome-cases, Dict,
}
use mathlib.Core.Path.{subst}
use skillledger.Credentials.{
  Credentials, CredentialWorld, refresh_window, credentials_path, load_credentials,
  write_credentials, save_credentials, int64_leb, needs_refresh, refresh, renew, ensure_fresh,
}

shifted :
    (e : ℕ)
    → e < 2 ^ 63
    → ((e + (2 ^ 64 - refresh_window)) % 2 ^ 64 + 2 ^ 63) % 2 ^ 64 + refresh_window ≡ e + 2 ^ 63
shifted e h = omega arith

unshifted : (n : ℕ) → n < 2 ^ 63 → (n + 2 ^ 63) % 2 ^ 64 ≡ n + 2 ^ 63
unshifted n h = omega arith

-- On times that are not negative the test of NeedsRefresh does not overflow: a token is renewed just
-- when it expires within five minutes.
pub needs_refresh_iff :
    (w : CredentialWorld) (c : Credentials)
    → c.expires_at < 2 ^ 63
    → w.now < 2 ^ 63
    → (needs_refresh w c ≡ true) ↔ (c.expires_at ≤ w.now + refresh_window)
unfolding needs_refresh int64_leb
needs_refresh_iff w c h k =
    let a = shifted c.expires_at h in
    let b = unshifted w.now k in ((λ t. let le = leb→le _ _ t in omega arith), (λ le. ground arith))

-- The answer to a refresh names no organisation.
refresh-slug :
    (w : CredentialWorld) (service_url refresh_token : Text) (c : Credentials)
    → refresh w service_url refresh_token ≡ ok c
    → c.org_slug ≡ []
unfolding refresh
refresh-slug w service_url refresh_token c h = ground arith

-- A save that succeeds has written what it has marshalled.
save_credentials-written :
    (w : CredentialWorld) (c : Credentials) (files files' : Dict Text)
    → save_credentials w c files ≡ (ok tt, files')
    → (bytes : Text) × (w.marshal c ≡ ok bytes)
      × (w.write_file (credentials_path w) bytes files ≡ (ok tt, files'))
unfolding save_credentials write_credentials
save_credentials-written w c files files' h = elim (Outcome-cases (w.marshal c)) [
  | inr (e, k) ↦ ground arith
  | inl (bytes, k) ↦ (bytes, k, ground arith)
]

load_credentials-read :
    (w : CredentialWorld) (c : Credentials) (files : Dict Text) (bytes : Text)
    → w.read_file (credentials_path w) files ≡ ok bytes
    → w.unmarshal bytes ≡ ok c
    → load_credentials w files ≡ ok c
unfolding load_credentials
load_credentials-read w c files bytes h k = rw (load_credentials, h, k) refl

-- Credentials from EnsureFresh are the loaded ones, or new ones that were saved.
ensure_fresh-cases :
    (w : CredentialWorld) (service_url : Text) (files files' : Dict Text) (c : Credentials)
    → ensure_fresh w service_url files ≡ (ok c, files')
    → ((load_credentials w files ≡ ok c) × (needs_refresh w c ≡ false) × (files' ≡ files))
      ⊎ ((old : Credentials) × (load_credentials w files ≡ ok old)
          × (needs_refresh w old ≡ true)
          × (refresh w service_url old.refresh_token ≡ ok c)
          × (save_credentials w c files ≡ (ok tt, files')))
unfolding ensure_fresh renew
ensure_fresh-cases w service_url files files' c h =
    elim (Outcome-cases (load_credentials w files)) [
      | inr (e, k) ↦ ground arith
      | inl (old, k) ↦ elim (Bool-cases (needs_refresh w old)) [
        | inr current ↦ inl (ground arith)
        | inl stale ↦ inr (old, k, stale, ground arith, ground arith)
      ]
    ]

module _ (w : CredentialWorld)
    (round_trip : (c : Credentials) (bytes : Text)
      → w.marshal c ≡ ok bytes
      → w.unmarshal bytes ≡ ok c)
    (reads_back : (path bytes : Text) (files files' : Dict Text)
      → w.write_file path bytes files ≡ (ok tt, files')
      → w.read_file path files' ≡ ok bytes) where
  -- What Save stored is loaded.
  pub load_credentials-save_credentials :
      (c : Credentials) (files files' : Dict Text)
      → save_credentials w c files ≡ (ok tt, files')
      → load_credentials w files' ≡ ok c
  unfolding save_credentials
  load_credentials-save_credentials c files files' h =
      let (bytes, marshalled, written) = save_credentials-written w c files files' h in
      load_credentials-read w c files' bytes
        (reads_back (credentials_path w) bytes files files' written) (round_trip c bytes marshalled)

  -- Credentials from EnsureFresh are those that the files then have: either the files are as they
  -- were and the token is not about to expire, or the token there was about to expire, and the new
  -- credentials have no organisation. A file that is written is assumed to read back, and what is
  -- marshalled to be read as it was.
  pub ensure_fresh-Stored :
      (service_url : Text) (files files' : Dict Text) (c : Credentials)
      → ensure_fresh w service_url files ≡ (ok c, files')
      → (load_credentials w files' ≡ ok c)
        × (((files' ≡ files) × (needs_refresh w c ≡ false))
            ⊎ ((old : Credentials) × (load_credentials w files ≡ ok old)
                × (needs_refresh w old ≡ true)
                × (c.org_slug ≡ [])))
  unfolding ensure_fresh renew
  ensure_fresh-Stored service_url files files' c h =
      elim (ensure_fresh-cases w service_url files files' c h) [
        | inl (loaded, fresh, same) ↦
            (subst (λ f. load_credentials w f ≡ ok c) (sym same) loaded, inl (same, fresh))
        | inr (old, loaded, stale, refreshed, saved) ↦ (
          load_credentials-save_credentials c files files' saved,
          inr (old, loaded, stale, refresh-slug w service_url old.refresh_token c refreshed),
        )
      ]
