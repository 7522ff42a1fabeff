-- ===== src/Proxy/Network/Listed.antt =====
-- Requests to listed hosts, from proxy/network_scanner.go through the handler.
use skillledger.Base.{
  ◌≡◌, refl, ◌≢◌, inl, inr, none, List, [], ◌∷◌, ◌++◌, Bool-cases, Text, text_eq, text_eq→≡,
  Outcome,
}
use skillledger.Ioc.{Database}
use skillledger.Ioc.Domains.{Listed, match_domain_iff_Listed}
use skillledger.Proxy.Scanner.{block, Request, Scanner, run}
use skillledger.Proxy.Scanner.Decision.{Decides, Decides-append_left, Decides-append_right}
use skillledger.Proxy.Network.{extract_hostname, scan_hostname, scan, network_scanner}
use skillledger.Proxy.Handler.{Handler, Outer, on_request, inject_protocol_header}
use skillledger.Proxy.Handler.Requests.{
  seen, scanner_findings, capability_findings, refused_iff_Decides,
}

scan_hostname-Decides :
    (db : Database) (host : Text)
    → host ≢ []
    → Listed host db.domain_entries
    → Decides block (scan_hostname db host)
unfolding scan_hostname
scan_hostname-Decides db host named listed =
    let (e, found) = (match_domain_iff_Listed host db).1 listed in
    elim (Bool-cases (text_eq host [])) [
      | inl empty ↦ absurd (named (text_eq→≡ host [] empty))
      | inr some_host ↦ rw (scan_hostname, some_host, found) (inl refl)
    ]

module _ {S : Type 0} (split : Text → Outcome Text) (db : Database) (r : Request)
    (body : Text) where
  run-Decides :
      (xs ys : List (Scanner S)) (s : S)
      → Decides block (scan split db r)
      → Decides block (run (xs ++ network_scanner split db ∷ ys) s r body).0
  unfolding run
  run-Decides [] ys s d = Decides-append_left block (scan split db r) _ d
  run-Decides (x ∷ xs) ys s d =
      Decides-append_right block (x s r body).0 _ (run-Decides xs ys (x s r body).1 d)

-- Wherever the network scanner stands among the scanners, and whatever the others and the
-- capability check find, a request to a listed host, or to a subdomain of one, gets a 403.
pub on_request-Listed :
    {S : Type 0} (split : Text → Outcome Text) (db : Database) (before after : List (Scanner S))
    (o : Outer) (r : Request) (h : Handler S)
    → h.pipeline ≡ before ++ network_scanner split db ∷ after
    → extract_hostname split r.host ≢ []
    → Listed (extract_hostname split r.host) db.domain_entries
    → (on_request o r h).0.refused ≢ none
unfolding scan inject_protocol_header
on_request-Listed split db before after o r h scanned named listed = (refused_iff_Decides o r h).1 (
    Decides-append_left block (scanner_findings r h) (capability_findings o r h) (
      rw scanned (
        run-Decides split db (seen r) _ before after h.scanners
          (scan_hostname-Decides db (extract_hostname split r.host) named listed))))
