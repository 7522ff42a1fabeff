-- ===== src/Ioc.antt =====
-- cli/internal/ioc/ioc.go: the database of known-compromised artifacts and domains. JSON, the HTTP
-- response and the cache directory are arguments.
pub mod Domains
mod Tests
use skillledger.Base.{
  ◌-◌, Bool, ◌||◌, Option, none, some, List, [], ◌∷◌, ◌++◌, if◌then◌else◌, length, take, Text,
  codes, text_eq, has_suffix, to_lower, Outcome, ok, err, ◌>>=◌, ◌>>◌, wrap, Dict, lookup, put,
}

pub record Entry : Type 0 where
  pub sha256 : Text
  pub description : Text
  pub severity : Text
  pub source : Text
  pub reported_at : Text

pub record DomainEntry : Type 0 where
  pub domain : Text
  pub description : Text
  pub severity : Text
  pub source : Text
  pub reported_at : Text

pub record Database : Type 0 where
  pub entries : Dict Entry
  pub domain_entries : List DomainEntry

-- NewDatabase
abbrev pub new : Database
new = record { entries = []; domain_entries = [] }

-- AddEntry
unfoldable pub add_entry : Entry → Database → Database
add_entry e d = record d { entries = put (to_lower e.sha256) e d.entries }

-- AddDomainEntry
unfoldable pub add_domain_entry : DomainEntry → Database → Database
add_domain_entry e d = record d { domain_entries = d.domain_entries ++ e ∷ [] }

-- The loop over hash entries of Load, fetchAndMerge and LoadWithCache.
unfoldable pub put_entries : List Entry → Dict Entry → Dict Entry
put_entries [] m = m
put_entries (e ∷ es) m = put_entries es (put (to_lower e.sha256) e m)

-- Load, with the bundled data parsed.
unfoldable pub load : Outcome (List Entry) → Outcome (List DomainEntry) → Outcome Database
unfolding put_entries
load hashes domains = do
  es ← wrap (codes "parsing bundled IOC data") hashes
  ok (record {
    entries = put_entries es [];
    domain_entries = elim domains [ ok ds ↦ ds | err e ↦ [] ];
  })

-- strings.TrimSuffix(s, p), the suffix first.
unfoldable pub trim_suffix : Text → Text → Text
trim_suffix p s = if has_suffix p s then take (length s - length p) s else s

-- The test of MatchDomain, for a host that is trimmed and in lower case.
unfoldable pub covers : DomainEntry → Text → Bool
unfolding has_suffix
covers e host =
    let domain = to_lower e.domain in text_eq host domain || has_suffix (codes "." ++ domain) host

unfoldable pub first_match : Text → List DomainEntry → Option DomainEntry
unfolding covers
first_match host [] = none
first_match host (e ∷ es) = let rest = first_match host es in if covers e host then some e else rest

abbrev pub normal : Text → Text
normal host = to_lower (trim_suffix (codes ".") host)

-- MatchDomain
unfoldable pub match_domain : Text → Database → Option DomainEntry
unfolding first_match trim_suffix
match_domain hostname d = first_match (normal hostname) d.domain_entries

-- Match
unfoldable pub match_hash : Text → Database → Option Entry
match_hash sha d = lookup (to_lower sha) d.entries

-- fetchAndMerge, with the response read: the new format and the old one.
unfoldable pub merge_update :
    Outcome (List Entry × List DomainEntry) → Outcome (List Entry) → Database → Outcome Database
unfolding put_entries
merge_update update old d = elim update [
  | ok (h ∷ hs, domains) ↦ ok (record {
    entries = put_entries (h ∷ hs) d.entries;
    domain_entries = d.domain_entries ++ domains;
  })
  | ok ([], x ∷ xs) ↦ ok (record d { domain_entries = d.domain_entries ++ x ∷ xs })
  | _ ↦ do
    es ← wrap (codes "parsing IOC response") old
    ok (record d { entries = put_entries es d.entries })
]
