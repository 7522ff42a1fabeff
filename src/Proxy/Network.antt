-- ===== src/Proxy/Network.antt =====
-- proxy/network_scanner.go: destinations checked against the IOC database and suspicious top-level
-- domains. net.SplitHostPort, which gives the host or an error, is an argument.
pub mod Listed
mod Tests
use skillledger.Base.{
  Bool, false, ◌&&◌, ◌||◌, not, Option, none, some, List, [], ◌∷◌, ◌++◌, nat_beq, if◌then◌else◌,
  Text, codes, text_eq, Outcome, ok, err,
}
use skillledger.Ioc.{Database, trim_suffix, match_domain}
use skillledger.Proxy.Scanner.{ActionType, block, log, Finding, Request, Scanner}

abbrev pub suspicious_tlds : List Text
suspicious_tlds =
    codes ".tk"
    ∷ codes ".ml"
    ∷ codes ".ga"
    ∷ codes ".cf"
    ∷ codes ".gq"
    ∷ codes ".top"
    ∷ codes ".xyz"
    ∷ codes ".win"
    ∷ codes ".bid"
    ∷ codes ".click"
    ∷ codes ".loan"
    ∷ codes ".racing"
    ∷ codes ".review"
    ∷ codes ".download"
    ∷ codes ".stream"
    ∷ codes ".science"
    ∷ codes ".party"
    ∷ codes ".date"
    ∷ codes ".faith"
    ∷ codes ".cricket"
    ∷ []

unfoldable pub is_suspicious : Text → List Text → Bool
is_suspicious tld [] = false
is_suspicious tld (t ∷ ts) = text_eq tld t || is_suspicious tld ts

-- extractHostname
unfoldable pub extract_hostname : (Text → Outcome Text) → Text → Text
unfolding trim_suffix
extract_hostname split [] = []
extract_hostname split (c ∷ cs) = elim (split (c ∷ cs)) [
  | err e ↦ trim_suffix (codes ".") (c ∷ cs)
  | ok host ↦ trim_suffix (codes ".") host
]

-- The part from the last dot on, if there is a dot.
unfoldable pub from_last_dot : Text → Option Text
from_last_dot [] = none
from_last_dot (c ∷ cs) = elim (from_last_dot cs) [
  | some t ↦ some t
  | none ↦ if nat_beq c 46 then some (c ∷ cs) else none
]

-- extractTLD
unfoldable pub extract_tld : Text → Text
unfolding from_last_dot trim_suffix
extract_tld hostname = elim (from_last_dot (trim_suffix (codes ".") hostname)) [
  | none ↦ []
  | some t ↦ t
]

abbrev network_finding : Text → Text → ActionType → Finding
network_finding severity description decision = record {
  scanner = codes "network";
  severity = severity;
  description = description;
  pattern = [];
  match_value = [];
  decision = decision;
}

-- Scan for a hostname.
unfoldable pub scan_hostname : Database → Text → List Finding
unfolding match_domain extract_tld is_suspicious
scan_hostname db hostname = if text_eq hostname [] then [] else elim (match_domain hostname db) [
  | some e ↦
      network_finding e.severity
        (codes "Destination " ++ (hostname ++ (codes " matches IOC entry: " ++ e.description)))
        block
      ∷ []
  | none ↦
      let tld = extract_tld hostname in
      if not (text_eq tld []) && is_suspicious tld suspicious_tlds
      then network_finding (codes "info")
          (codes "Destination " ++ (hostname ++ codes " uses suspicious TLD")) log
        ∷ []
      else []
]

-- NetworkScanner.Scan
unfoldable pub scan : (Text → Outcome Text) → Database → Request → List Finding
unfolding scan_hostname extract_hostname
scan split db r = scan_hostname db (extract_hostname split r.host)

-- The scanner as a member of the pipeline: it keeps no state.
abbrev pub network_scanner : {S : Type 0} → (Text → Outcome Text) → Database → Scanner S
network_scanner split db s r body = (scan split db r, s)
