-- ===== src/Proxy/Pinning/Check.antt =====
-- Check of proxy/pinning.go, between sessions and within one.
use skillledger.Base.{
  ℕ, Bool, true, false, Option, none, some, List, [], ◌∷◌, ◌++◌, if◌then◌else◌, Text, text_eq,
  Outcome, ok, err, Dict, lookup,
}
use skillledger.Proxy.Pinning.{
  critical, high, McpTool, PinEntry, PinChange, Json, ToolPinStore, pin_key, hash_tool_full,
  hash_field, hash_named, classify_pin_change_from_hashes, classify,
}

abbrev description_of : Option PinEntry → Text
description_of none = []
description_of (some e) = e.description

abbrev pub between_change : Json → ℕ → Text → McpTool → PinEntry → Text → PinChange
between_change j now server t e h = record {
  server_id = server;
  tool_name = t.name;
  severity = classify j e t;
  old_hash = e.full_hash;
  new_hash = h;
  old_desc = e.description;
  new_desc = t.description;
  mid_session = false;
  detected_at = now;
}

-- One round of the loop of checkBetweenSession: the change of this tool, if any.
unfoldable pub between_tool : Json → ℕ → Text → Dict PinEntry → McpTool → Outcome (Option PinChange)
unfolding hash_tool_full classify_pin_change_from_hashes hash_field pin_key
between_tool j now server pins t = elim (lookup (pin_key server t.name) pins) [
  | none ↦ ok none
  | some e ↦ elim (hash_named j t) [
    | err msg ↦ err msg
    | ok h ↦ ok (if text_eq e.full_hash h then none else some (between_change j now server t e h))
  ]
]

-- A loop that stops at the first error and appends what a round finds.
unfoldable pub collect :
    (McpTool → Outcome (Option PinChange)) → List McpTool → Outcome (List PinChange)
collect f [] = ok []
collect f (t ∷ ts) = elim (f t) [
  | err msg ↦ err msg
  | ok c ↦ elim (collect f ts) [
    | err msg ↦ err msg
    | ok cs ↦ ok (elim c [ none ↦ cs | some change ↦ change ∷ cs ])
  ]
]

abbrev pub added : ℕ → Text → McpTool → Text → PinChange
added now server t h = record {
  server_id = server;
  tool_name = t.name;
  severity = critical;
  old_hash = [];
  new_hash = h;
  old_desc = [];
  new_desc = t.description;
  mid_session = true;
  detected_at = now;
}

abbrev pub changed : Json → ℕ → Text → Dict PinEntry → McpTool → Text → Text → PinChange
changed j now server pins t old h =
    let entry = lookup (pin_key server t.name) pins in
    record {
      server_id = server;
      tool_name = t.name;
      severity = elim entry [ none ↦ high | some e ↦ classify j e t ];
      old_hash = old;
      new_hash = h;
      old_desc = description_of entry;
      new_desc = t.description;
      mid_session = true;
      detected_at = now;
    }

-- One round of the first loop of checkMidSession.
unfoldable pub mid_tool :
    Json → ℕ → Text → Dict PinEntry → Dict Text → McpTool → Outcome (Option PinChange)
unfolding hash_tool_full classify_pin_change_from_hashes hash_field pin_key
mid_tool j now server pins baseline t = elim (hash_named j t) [
  | err msg ↦ err msg
  | ok h ↦ elim (lookup t.name baseline) [
    | none ↦ ok (some (added now server t h))
    | some old ↦ ok (if text_eq old h then none else some (changed j now server pins t old h))
  ]
]

unfoldable pub is_current : Text → List McpTool → Bool
is_current name [] = false
is_current name (t ∷ ts) = if text_eq t.name name then true else is_current name ts

-- The second loop of checkMidSession: tools of the baseline that are gone.
unfoldable pub removed : ℕ → Text → Dict PinEntry → List McpTool → Dict Text → List PinChange
unfolding is_current pin_key
removed now server pins ts [] = []
removed now server pins ts ((name, old) ∷ baseline) =
    let rest = removed now server pins ts baseline in
    if is_current name ts
    then rest
    else record {
      server_id = server;
      tool_name = name;
      severity = critical;
      old_hash = old;
      new_hash = [];
      old_desc = description_of (lookup (pin_key server name) pins);
      new_desc = [];
      mid_session = true;
      detected_at = now;
    }
      ∷ rest

-- checkBetweenSession
unfoldable pub check_between_session :
    Json → ℕ → Text → List McpTool → ToolPinStore → Outcome (List PinChange)
unfolding collect between_tool
check_between_session j now server ts s = collect (between_tool j now server s.pins.pins) ts

-- checkMidSession
unfoldable pub check_mid_session :
    Json → ℕ → Text → List McpTool → ToolPinStore → Outcome (List PinChange)
unfolding collect mid_tool removed
check_mid_session j now server ts s = elim (lookup server s.session_baseline) [
  | none ↦ ok []
  | some baseline ↦ elim (collect (mid_tool j now server s.pins.pins baseline) ts) [
    | err msg ↦ err msg
    | ok changes ↦ ok (changes ++ removed now server s.pins.pins ts baseline)
  ]
]

-- Check
unfoldable pub check :
    Json → ℕ → Text → List McpTool → Bool → ToolPinStore → Outcome (List PinChange)
unfolding check_mid_session check_between_session
check j now server ts mid_session s =
    if mid_session
    then check_mid_session j now server ts s
    else check_between_session j now server ts s
