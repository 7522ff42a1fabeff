-- ===== src/Proxy/Network/Tests.antt =====
-- Runs of proxy/network_scanner.go, and a request to a listed host.
use skillledger.Base.{
  ◌≡◌, refl, sym, ◌∙◌, ◌≢◌, inl, inr, true, false, none, List, [], ◌∷◌, ◌++◌, map, Text, codes,
  has_suffix, to_lower, Outcome, ok, err,
}
use skillledger.Ioc.{Database, trim_suffix}
use skillledger.Ioc.Domains.{Listed}
use skillledger.Proxy.Scanner.{ActionType, block, log, Request}
use skillledger.Proxy.DecisionLog.{new}
use skillledger.Proxy.PolicyConfig.{default_policy_config}
use skillledger.Proxy.Network.{extract_hostname, scan, network_scanner}
use skillledger.Proxy.Network.Listed.{on_request-Listed}
use skillledger.Proxy.Handler.{Handler, Outer, on_request}

abbrev db : Database
db = record {
  entries = [];
  domain_entries =
      record {
        domain = codes "evil.com";
        description = codes "phishing";
        severity = codes "high";
        source = [];
        reported_at = [];
      }
      ∷ [];
}

-- No host has a port.
abbrev split : Text → Outcome Text
split hostport = err (codes "missing port in address")

abbrev request : Text → Request
request host = record {
  method = codes "GET";
  host = host;
  path = codes "/";
  scheme = [];
  tls = true;
  header = [];
  body = none;
}

abbrev decisions : Text → List ActionType
decisions host = map (λ f. f.decision) (scan split db (request host))

listed_blocks : decisions (codes "login.Evil.com") ≡ block ∷ []
unfolding scan to_lower
listed_blocks = refl

suspicious_logs : decisions (codes "a.tk") ≡ log ∷ []
unfolding scan to_lower
suspicious_logs = refl

other_passes : decisions (codes "example.com") ≡ []
unfolding scan to_lower
other_passes = refl

abbrev outer : Outer
outer = record {
  outside = record {
    new_action_id = codes "act-1";
    now = 5;
    marshal = λ e. none;
    write = λ file line. file;
  };
  opa = record {
    runtime_strict = [];
    runtime_moderate = [];
    runtime_permissive = [];
    prepare = λ source modules. err (codes "prepare");
  };
  path_match = λ pattern host. ok false;
}

abbrev handler : Handler (Unit {0})
handler = record {
  decision_log = new 3;
  pipeline = [] ++ network_scanner split db ∷ [];
  scanners = tt;
  cap_eval = none;
  trust_verifier = none;
  policy = default_policy_config;
  violations = none;
}

abbrev host : Text
host = codes "a.evil.com"

hostname : extract_hostname split host ≡ host
unfolding extract_hostname has_suffix
hostname = refl

cons_ne_empty : host ≢ []
cons_ne_empty h = cc

named : extract_hostname split host ≢ []
named h = cons_ne_empty (sym hostname ∙ h)

listed : Listed (extract_hostname split host) db.domain_entries
unfolding to_lower trim_suffix has_suffix extract_hostname
listed = inl (inr (codes "a", refl))

on_request-Listed_example : (on_request outer (request host) handler).0.refused ≢ none
on_request-Listed_example =
    on_request-Listed split db [] [] outer (request host) handler refl named listed
