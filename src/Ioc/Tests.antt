-- ===== src/Ioc/Tests.antt =====
-- Runs of cli/internal/ioc, and its theorem at a concrete input.
use skillledger.Base.{
  ◌≡◌, refl, ◌↔◌, none, some, [], ◌∷◌, codes, text_eq, to_lower, ok, err, lookup, put,
}
use skillledger.Ioc.{
  Entry, DomainEntry, Database, new, load, add_entry, add_domain_entry, match_domain, match_hash,
  merge_update,
}
use skillledger.Ioc.Domains.{Listed, match_domain_iff_Listed}

abbrev evil : DomainEntry
evil = record {
  domain = codes "Evil.com";
  description = codes "phishing";
  severity = codes "high";
  source = [];
  reported_at = [];
}

abbrev hash : Entry
hash = record {
  sha256 = codes "ABC1";
  description = codes "malware";
  severity = codes "critical";
  source = [];
  reported_at = [];
}

abbrev db : Database
db = add_domain_entry evil (add_entry hash new)

subdomain_found : match_domain (codes "a.EVIL.com.") db ≡ some evil
unfolding match_domain add_domain_entry add_entry to_lower
subdomain_found = refl

other_not_found : match_domain (codes "notevil.com") db ≡ none
unfolding match_domain add_domain_entry add_entry to_lower
other_not_found = refl

hash_found : match_hash (codes "abc1") db ≡ some hash
unfolding match_hash lookup add_domain_entry add_entry put text_eq to_lower
hash_found = refl

loaded : load (ok (hash ∷ [])) (err (codes "bad json")) ≡ ok (add_entry hash new)
unfolding load add_entry
loaded = refl

old_format : merge_update (err (codes "array")) (ok (hash ∷ [])) new ≡ ok (add_entry hash new)
unfolding merge_update add_entry
old_format = refl

match_domain_iff_Listed_example :
    ((e : DomainEntry) × (match_domain (codes "a.evil.com") db ≡ some e))
    ↔ Listed (codes "a.evil.com") db.domain_entries
match_domain_iff_Listed_example = match_domain_iff_Listed (codes "a.evil.com") db
