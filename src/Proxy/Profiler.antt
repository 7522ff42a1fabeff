-- ===== src/Proxy/Profiler.antt =====
-- proxy/profiler.go: the profiles of observed actions, and the draft manifests made of them. A set
-- is a list without repetitions, whose order Go leaves open. url.Parse is an argument. Each
-- operation holds the lock, so it is one step.
mod Observed
mod Drafts
pub mod Export
mod Tests
use skillledger.Base.{
  ℕ, ◌+◌, Bool, true, false, ◌&&◌, ◌||◌, not, Option, none, some, List, [], ◌∷◌, ◌++◌, ltb, nat_beq,
  if◌then◌else◌, length, take, Text, codes, text_eq, Outcome, ok, err, sort_strings, Dict, lookup,
  put, keys,
}
use skillledger.Manifest.{Manifest, no_source}
use skillledger.Proxy.Capability.{RuntimeAction}
use skillledger.Proxy.TwoPass.{mem_text}

-- maxProfileEntries
abbrev pub max_profile_entries : ℕ
max_profile_entries = 1000

pub record SkillProfile : Type 0 where
  pub destinations : List Text
  pub methods : List Text
  pub tools : List Text
  pub resources : List Text
  pub first_seen : ℕ
  pub action_count : ℕ

-- Profiler
abbrev pub Profiler : Type 0
Profiler = Dict SkillProfile

-- NewProfiler
abbrev pub new_profiler : Profiler
new_profiler = []

abbrev pub new_profile : ℕ → SkillProfile
new_profile now = record {
  destinations = [];
  methods = [];
  tools = [];
  resources = [];
  first_seen = now;
  action_count = 0;
}

-- set[x] = struct{}{}, guarded by x != "" and the limit of the set.
unfoldable pub insert_capped : Text → List Text → List Text
unfolding mem_text
insert_capped x set_ =
    if not (text_eq x []) && ltb (length set_) max_profile_entries && not (mem_text x set_)
    then x ∷ set_
    else set_

unfoldable pub has_slash : Text → Bool
has_slash [] = false
has_slash (c ∷ cs) = nat_beq c 47 || has_slash cs

-- normalizeDestination; `url_host` is Host of what url.Parse returns.
unfoldable pub normalize_destination : (Text → Outcome Text) → Text → Text
unfolding has_slash
normalize_destination url_host dest =
    let schemeless =
      ltb (length dest) 8
      || (not (text_eq (take 7 dest) (codes "http://"))
          && not (text_eq (take 8 dest) (codes "https://"))) in
    let to_parse = if schemeless then codes "https://" ++ dest else dest in
    if not (has_slash dest) then dest else elim (url_host to_parse) [
      | err e ↦ dest
      | ok host ↦ if text_eq host [] then dest else host
    ]

-- The switch of Observe.
unfoldable pub observe_action : (Text → Outcome Text) → RuntimeAction → SkillProfile → SkillProfile
unfolding insert_capped normalize_destination
observe_action url_host a p =
    if text_eq a.action_type (codes "http_request")
    then record p {
      destinations = insert_capped (normalize_destination url_host a.destination) p.destinations;
      methods = insert_capped a.method p.methods;
    }
    else if text_eq a.action_type (codes "mcp_tool_call")
    then record p { tools = insert_capped a.tool_name p.tools }
    else if text_eq a.action_type (codes "mcp_resource_access")
    then record p { resources = insert_capped a.resource p.resources }
    else p

unfoldable pub profile_or_new : ℕ → Option SkillProfile → SkillProfile
profile_or_new now none = new_profile now
profile_or_new now (some p) = p

-- Observe
unfoldable pub observe : (Text → Outcome Text) → ℕ → RuntimeAction → Profiler → Profiler
unfolding lookup put profile_or_new observe_action
observe url_host now a profiles =
    let old = profile_or_new now (lookup a.skill_id profiles) in
    let new_ = observe_action url_host a old in
    put a.skill_id (record new_ { action_count = new_.action_count + 1 }) profiles

-- setToSortedSlice; nil and an empty slice are the same list.
abbrev pub set_to_sorted_slice : List Text → List Text
set_to_sorted_slice = sort_strings

abbrev pub draft : Text → SkillProfile → Manifest
draft id p = record {
  skill_ledger = 1;
  id = id;
  version = codes "0.0.0-draft";
  kind = codes "skill";
  source = no_source;
  capabilities = record {
    filesystem = [];
    network = set_to_sorted_slice p.destinations;
    secrets = [];
    tools = set_to_sorted_slice p.tools;
  };
}

-- Export; `quote` is the verb %q of fmt.
unfoldable pub export : (Text → Text) → Text → Profiler → Outcome Manifest
unfolding lookup sort_strings
export quote id profiles = elim (lookup id profiles) [
  | none ↦ err (codes "no profile for skill " ++ quote id)
  | some p ↦ ok (draft id p)
]

unfoldable pub export_ids : (Text → Text) → Profiler → List Text → List Manifest
unfolding export
export_ids quote profiles [] = []
export_ids quote profiles (id ∷ ids) =
    let rest = export_ids quote profiles ids in
    elim (export quote id profiles) [ err e ↦ rest | ok m ↦ m ∷ rest ]

-- List
unfoldable pub list_ids : Profiler → List Text
unfolding keys sort_strings
list_ids profiles = sort_strings (keys profiles)

-- ExportAll, with no action in between its two locked parts.
unfoldable pub export_all : (Text → Text) → Profiler → List Manifest
unfolding list_ids export_ids
export_all quote profiles = export_ids quote profiles (list_ids profiles)

-- The results of ProfileFor.
pub record Shown : Type 0 where
  pub destinations : List Text
  pub tools : List Text
  pub resources : List Text
  pub action_count : ℕ
  pub found : Bool

-- ProfileFor
unfoldable pub profile_for : Text → Profiler → Shown
unfolding lookup sort_strings
profile_for id profiles = elim (lookup id profiles) [
  | none ↦ record { destinations = []; tools = []; resources = []; action_count = 0; found = false }
  | some p ↦ record {
    destinations = set_to_sorted_slice p.destinations;
    tools = set_to_sorted_slice p.tools;
    resources = set_to_sorted_slice p.resources;
    action_count = p.action_count;
    found = true;
  }
]
