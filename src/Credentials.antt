-- ===== src/Credentials.antt =====
-- cli/internal/credentials/credentials.go: the tokens of the command line, their expiry and refresh.
-- An int64 is its two's complement, a number below 2 ^ 64. Files, paths, HTTP, base64 and
-- encoding/json are arguments.
mod Refreshed
mod Tests
use skillledger.Base.{
  ℕ, zero, suc, ◌+◌, ◌-◌, ◌*◌, ◌/◌, ◌%◌, ◌^◌, ◌≤◌, ◌<◌, min, ◌≡◌, refl, sym, ap, ◌∙◌, fun_ext, ◌≢◌,
  ◌↔◌, ◌⊎◌, inl, inr, Bool, true, false, ◌&&◌, ◌||◌, not, Option, none, some, List, [], ◌∷◌, ◌++◌,
  map, append-nil, append_assoc, arith, ltb, leb, nat_beq, if◌then◌else◌, nat_beq_iff, ltb→lt,
  leb→le, Eq, ◌==◌, nat_eq, Bool-cases, Option-cases, length, get_elem?, set, take, drop, replicate,
  length-append, length-set, length-replicate, length-take, length-drop, get_elem?-set_self,
  get_elem?-set_ne, get_elem?-lt, take-drop-suc, take-min, take-take, take-append-drop, drop-append,
  List-cases, All, All-append, All-map, Text, codes, text_eq, text_eq→≡, text_eq_iff, text_eq_inst,
  join, has_prefix, has_suffix, to_lower, Outcome, ok, err, ◌>>=◌, ◌>>◌, wrap, Outcome-cases,
  >>=-ok, wrap-ok, trim_space, split_on, text_leb, insert_sorted, sort_strings, Dict, lookup, put,
  remove, keys, lookup-put, lookup-put_self, lookup-put_ne, lookup-remove, length-put,
}

-- Credentials
pub record Credentials : Type 0 where
  pub access_token : Text
  pub refresh_token : Text
  pub expires_at : ℕ
  pub org_slug : Text

-- tokenResponse
pub record TokenResponse : Type 0 where
  pub access_token : Text
  pub refresh_token : Text
  pub token_type : Text

-- http.Response: the status and what can be read of the body.
pub record Reply : Type 0 where
  pub status : ℕ
  pub body : Text

-- The operations on files give the files there are afterwards.
pub record CredentialWorld : Type 0 where
  pub home : Outcome Text
  pub home_variable : Text
  pub join : List Text → Text
  pub dir : Text → Text
  pub read_file : Text → Dict Text → Outcome Text
  pub make_directory : Text → Outcome (Unit {0})
  pub write_file : Text → Text → Dict Text → Outcome (Unit {0}) × Dict Text
  pub remove_file : Text → Dict Text → Outcome (Unit {0}) × Dict Text
  pub is_not_exist : Text → Bool
  pub unmarshal : Text → Outcome Credentials
  pub marshal : Credentials → Outcome Text
  pub decode_base64 : Text → Outcome Text
  pub unmarshal_exp : Text → Outcome ℕ
  pub marshal_request : Text → Outcome Text
  pub post : Text → Text → Outcome Reply
  pub decode_tokens : Reply → Outcome TokenResponse
  pub decimal : ℕ → Text
  pub now : ℕ

-- refreshWindow
abbrev pub refresh_window : ℕ
refresh_window = 300

-- Path
unfoldable pub credentials_path : CredentialWorld → Text
credentials_path w =
    let home : Text = elim w.home [ err e ↦ w.home_variable | ok home ↦ home ] in
    w.join (home ∷ codes ".skillledger" ∷ codes "credentials.json" ∷ [])

-- Load
unfoldable pub load_credentials : CredentialWorld → Dict Text → Outcome Credentials
unfolding credentials_path
load_credentials w files = do
  bytes ← wrap (codes "loading credentials") (w.read_file (credentials_path w) files)
  wrap (codes "parsing credentials") (w.unmarshal bytes)

-- What Save does once it has the bytes.
unfoldable pub write_credentials :
    CredentialWorld → Text → Dict Text → Outcome (Unit {0}) × Dict Text
unfolding credentials_path
write_credentials w bytes files =
    let (written, files') = w.write_file (credentials_path w) bytes files in
    (wrap (codes "writing credentials") written, files')

-- Save
unfoldable pub save_credentials :
    CredentialWorld → Credentials → Dict Text → Outcome (Unit {0}) × Dict Text
unfolding write_credentials credentials_path
save_credentials w creds files = elim (w.make_directory (w.dir (credentials_path w))) [
  | err e ↦ (err (codes "creating credentials directory: " ++ e), files)
  | ok _ ↦ elim (w.marshal creds) [
    | err e ↦ (err (codes "marshaling credentials: " ++ e), files)
    | ok bytes ↦ write_credentials w bytes files
  ]
]

-- Delete
unfoldable pub delete_credentials : CredentialWorld → Dict Text → Outcome (Unit {0}) × Dict Text
unfolding credentials_path
delete_credentials w files =
    let (removed, files') = w.remove_file (credentials_path w) files in
    elim removed [
      | ok _ ↦ (ok tt, files')
      | err e ↦
          ((if w.is_not_exist e then ok tt else err (codes "deleting credentials: " ++ e)), files')
    ]

-- a <= b for two int64.
unfoldable pub int64_leb : ℕ → ℕ → Bool
int64_leb a b = leb ((a + 2 ^ 63) % 2 ^ 64) ((b + 2 ^ 63) % 2 ^ 64)

-- NeedsRefresh
unfoldable pub needs_refresh : CredentialWorld → Credentials → Bool
unfolding int64_leb
needs_refresh w c = int64_leb ((c.expires_at + (2 ^ 64 - refresh_window)) % 2 ^ 64) w.now

-- The part of ExtractExpiry after the split.
unfoldable pub expiry_of_parts : CredentialWorld → List Text → ℕ
expiry_of_parts w (header ∷ payload ∷ signature ∷ []) = elim (w.decode_base64 payload) [
  | err e ↦ 0
  | ok bytes ↦ elim (w.unmarshal_exp bytes) [ err e ↦ 0 | ok exp ↦ exp ]
]
expiry_of_parts w _ = 0

-- ExtractExpiry
unfoldable pub extract_expiry : CredentialWorld → Text → ℕ
unfolding expiry_of_parts split_on
extract_expiry w token = expiry_of_parts w (split_on 46 token)

-- The credentials that Refresh makes of the answer.
unfoldable pub credentials_of : CredentialWorld → TokenResponse → Credentials
unfolding extract_expiry
credentials_of w tokens = record {
  access_token = tokens.access_token;
  refresh_token = tokens.refresh_token;
  expires_at = extract_expiry w tokens.access_token;
  org_slug = [];
}

-- Refresh
unfoldable pub refresh : CredentialWorld → Text → Text → Outcome Credentials
unfolding credentials_of
refresh w service_url refresh_token = do
  body ← wrap (codes "marshaling refresh request") (w.marshal_request refresh_token)
  reply ←
      wrap (codes "refresh request failed") (w.post (service_url ++ codes "/v1/auth/refresh") body)
  if nat_beq reply.status 200
      then (do
        tokens ← wrap (codes "decoding refresh response") (w.decode_tokens reply)
        ok (credentials_of w tokens))
      else err (
          codes "refresh failed (status "
          ++ (w.decimal reply.status ++ (codes "): " ++ reply.body)))

-- The last part of EnsureFresh, for credentials that are about to expire.
unfoldable pub renew :
    CredentialWorld → Text → Credentials → Dict Text → Outcome Credentials × Dict Text
unfolding refresh save_credentials
renew w service_url creds files = elim (refresh w service_url creds.refresh_token) [
  | err e ↦ (err (codes "token refresh failed: " ++ e), files)
  | ok new_creds ↦
      let (saved, files') = save_credentials w new_creds files in
      elim saved [
        | err e ↦ (err (codes "saving refreshed credentials: " ++ e), files')
        | ok _ ↦ (ok new_creds, files')
      ]
]

-- EnsureFresh
unfoldable pub ensure_fresh : CredentialWorld → Text → Dict Text → Outcome Credentials × Dict Text
unfolding load_credentials needs_refresh renew
ensure_fresh w service_url files = elim (load_credentials w files) [
  | err e ↦ (err (codes "not logged in: " ++ e), files)
  | ok creds ↦ if needs_refresh w creds then renew w service_url creds files else (ok creds, files)
]
