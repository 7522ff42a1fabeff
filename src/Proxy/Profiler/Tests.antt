-- ===== src/Proxy/Profiler/Tests.antt =====
-- Runs of proxy/profiler.go, and its theorem at a concrete input.
use skillledger.Base.{◌≡◌, refl, List, [], ◌∷◌, map, Text, codes, text_eq, Outcome, ok, err}
use skillledger.Manifest.{Manifest, no_source}
use skillledger.Proxy.Capability.{RuntimeAction}
use skillledger.Proxy.Profiler.{
  Profiler, new_profiler, normalize_destination, export, export_all, list_ids, profile_for,
}
use skillledger.Proxy.Profiler.Drafts.{Drafted}
use skillledger.Proxy.Profiler.Export.{called_tools, visited_hosts, observe_all, export-Drafted}

-- Every URL has the same host.
abbrev url_host : Text → Outcome Text
url_host url = ok (codes "example.com")

abbrev action : Text → Text → Text → Text → RuntimeAction
action skill type_ destination tool = record {
  skill_id = skill;
  action_type = type_;
  destination = destination;
  method = codes "GET";
  tool_name = tool;
  resource = [];
  trust_tier = [];
}

abbrev actions : List RuntimeAction
actions =
    action (codes "s") (codes "http_request") (codes "example.com/a") []
    ∷ action (codes "s") (codes "mcp_tool_call") [] (codes "write")
    ∷ action (codes "r") (codes "mcp_tool_call") [] (codes "exec")
    ∷ action (codes "s") (codes "mcp_tool_call") [] (codes "read")
    ∷ action (codes "s") (codes "mcp_tool_call") [] (codes "write")
    ∷ []

abbrev profile_run : Profiler
profile_run = observe_all url_host actions (λ n. n) 0 new_profiler

abbrev drafted : Manifest
drafted = record {
  skill_ledger = 1;
  id = codes "s";
  version = codes "0.0.0-draft";
  kind = codes "skill";
  source = no_source;
  capabilities = record {
    filesystem = [];
    network = codes "example.com" ∷ [];
    secrets = [];
    tools = codes "read" ∷ codes "write" ∷ [];
  };
}

no_path : normalize_destination url_host (codes "example.com:443") ≡ codes "example.com:443"
unfolding normalize_destination
no_path = refl

exported : export (λ s. s) (codes "s") profile_run ≡ ok drafted
unfolding export observe_all text_eq
exported = refl

unknown_skill : export (λ s. s) (codes "t") profile_run ≡ err (codes "no profile for skill t")
unfolding export observe_all text_eq
unknown_skill = refl

listed : list_ids profile_run ≡ codes "r" ∷ codes "s" ∷ []
unfolding list_ids observe_all text_eq
listed = refl

all_exported :
    map (λ (m : Manifest). m.id) (export_all (λ s. s) profile_run) ≡ codes "r" ∷ codes "s" ∷ []
unfolding export_all observe_all text_eq
all_exported = refl

counted : (profile_for (codes "s") profile_run).action_count ≡ 4
unfolding profile_for observe_all text_eq
counted = refl

export-Drafted_example :
    Drafted (called_tools (codes "s") actions) (codes "read" ∷ codes "write" ∷ [])
    × Drafted (visited_hosts url_host (codes "s") actions) (codes "example.com" ∷ [])
export-Drafted_example =
    export-Drafted url_host (λ s. s) actions (λ n. n) (codes "s") drafted exported
