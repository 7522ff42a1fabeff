-- ===== src/Credentials/Tests.antt =====
-- Runs of cli/internal/credentials/credentials.go, and its theorem at a concrete input.
use skillledger.Base.{
  ℕ, suc, ◌≡◌, refl, ap, ◌⊎◌, true, false, Option, none, some, [], ◌∷◌, ◌++◌, map, nat_eq, Text,
  codes, text_eq, text_eq_inst, join, Outcome, ok, err, Dict, lookup, put, remove, lookup-put_self,
}
use skillledger.Base.{decode_part, decode-encode}
use mathlib.Core.Path.{subst}
use skillledger.Credentials.{
  Credentials, CredentialWorld, load_credentials, needs_refresh, extract_expiry, ensure_fresh,
  delete_credentials,
}
use skillledger.Credentials.Refreshed.{ensure_fresh-Stored}

abbrev encode : Credentials → Text
encode c =
    map suc c.access_token
    ++ (0 ∷ (map suc c.refresh_token ++ (0 ∷ (map suc c.org_slug ++ (0 ∷ c.expires_at ∷ [])))))

abbrev first_code : Text → ℕ
first_code [] = 0
first_code (c ∷ cs) = c

abbrev decode : Text → Credentials
decode bytes =
    let (access, rest) = decode_part bytes in
    let (renewal, rest') = decode_part rest in
    let (slug, last) = decode_part rest' in
    record {
      access_token = access;
      refresh_token = renewal;
      expires_at = first_code last;
      org_slug = slug;
    }

abbrev found_or_not : Option Text → Outcome Text
found_or_not none = err (codes "no such file")
found_or_not (some bytes) = ok bytes

-- A service that gives every client the token "a.b.c", which expires at 1000. It is 600.
abbrev world : CredentialWorld
world = record {
  home = ok (codes "/home/u");
  home_variable = [];
  join = join (codes "/");
  dir = λ path. path;
  read_file = λ path files. found_or_not (lookup path files);
  make_directory = λ path. ok tt;
  write_file = λ path bytes files. (ok tt, put path bytes files);
  remove_file = λ path files. (ok tt, remove path files);
  is_not_exist = λ e. false;
  unmarshal = λ bytes. ok (decode bytes);
  marshal = λ c. ok (encode c);
  decode_base64 = λ t. ok t;
  unmarshal_exp = λ t. ok 1000;
  marshal_request = λ t. ok t;
  post = λ url body. ok (record { status = 200; body = body });
  decode_tokens = λ reply.
      ok (record { access_token = codes "a.b.c"; refresh_token = reply.body; token_type = [] });
  decimal = λ n. [];
  now = 600;
}

abbrev account : Credentials
account = record {
  access_token = codes "x";
  refresh_token = codes "r";
  expires_at = 900;
  org_slug = codes "acme";
}

abbrev renewed : Credentials
renewed = record {
  access_token = codes "a.b.c";
  refresh_token = codes "r";
  expires_at = 1000;
  org_slug = [];
}

abbrev home_files : Credentials → Dict Text
home_files c = (codes "/home/u/.skillledger/credentials.json", encode c) ∷ []

-- The organisation "acme" is lost.
organisation_lost : ensure_fresh world [] (home_files account) ≡ (ok renewed, home_files renewed)
unfolding ensure_fresh lookup text_eq join decode_part put
organisation_lost = refl

still_fresh :
    ensure_fresh (record world { now = 599 }) [] (home_files account)
    ≡ (ok account, home_files account)
unfolding ensure_fresh lookup text_eq join decode_part
still_fresh = refl

no_token : extract_expiry world (codes "a.b") ≡ 0
unfolding extract_expiry
no_token = refl

logged_out : delete_credentials world (home_files account) ≡ (ok tt, [])
unfolding delete_credentials remove text_eq join
logged_out = refl

text-injective : {a b : Text} → ok a ≡ ok b → a ≡ b
text-injective h = cc

decoded :
    (c : Credentials) (bytes : Text) → world.marshal c ≡ ok bytes → world.unmarshal bytes ≡ ok c
decoded c bytes h =
    let same : encode c ≡ bytes = text-injective h in
    subst (λ b. world.unmarshal b ≡ ok c) same
      (rw
        (
          decode-encode c.access_token
              (map suc c.refresh_token ++ (0 ∷ (map suc c.org_slug ++ (0 ∷ c.expires_at ∷ [])))),
          decode-encode c.refresh_token (map suc c.org_slug ++ (0 ∷ c.expires_at ∷ [])),
          decode-encode c.org_slug (c.expires_at ∷ []),
        )
        refl)

stored :
    (path bytes : Text) (files files' : Dict Text)
    → world.write_file path bytes files ≡ (ok tt, files')
    → world.read_file path files' ≡ ok bytes
stored path bytes files files' h =
    subst (λ f. found_or_not (lookup path f) ≡ ok bytes) (ap (λ p. p.1) h)
      (rw (lookup-put_self path bytes files) refl)

ensure_fresh-Stored_example :
    (load_credentials world (home_files renewed) ≡ ok renewed)
    × (((home_files renewed ≡ home_files account) × (needs_refresh world renewed ≡ false))
        ⊎ ((old : Credentials) × (load_credentials world (home_files account) ≡ ok old)
            × (needs_refresh world old ≡ true)
            × (renewed.org_slug ≡ [])))
ensure_fresh-Stored_example =
    ensure_fresh-Stored world decoded stored [] (home_files account) (home_files renewed) renewed
      organisation_lost
