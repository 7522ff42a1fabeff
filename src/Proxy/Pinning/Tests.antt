-- ===== src/Proxy/Pinning/Tests.antt =====
-- Runs of proxy/pinning.go, and its theorems at concrete inputs.
use skillledger.Base.{
  ◌≡◌, refl, ◌≢◌, ◌↔◌, true, false, some, List, [], ◌∷◌, ◌++◌, map, All, Text, codes, text_eq,
  text_eq_iff, Outcome, ok, err, lookup, put,
}
use skillledger.Proxy.Pinning.{
  Tracker, track_request, PinChangeSeverity, critical, high, medium, McpTool, PinChange, Json,
  ToolPinStore, new, pin_all, set_session_baseline, baseline_from, hash_tool_full,
}
use skillledger.Proxy.Pinning.Check.{check}
use skillledger.Proxy.Pinning.Between.{Unchanged, DistinctNames, check-quiet}
use skillledger.Proxy.Pinning.Session.{AsBefore, NoneGone, check_mid-quiet, Hashed}

-- The identity hash of the name, the description and the schema, one after the other.
abbrev json : Json
json = record {
  unmarshal = ok;
  string_value = λ s. s;
  nil_value = codes "null";
  marshal_string = λ s. s;
  marshal_tool = λ name description schema. ok (name ++ (description ++ schema));
  transform = ok;
  sha256 = λ bytes. bytes;
  hex = λ bytes. bytes;
}

abbrev tool : Text → Text → Text → McpTool
tool name description schema = record {
  name = name;
  description = description;
  input_schema = schema;
}

abbrev read_tool : McpTool
read_tool = tool (codes "read") (codes "d") (codes "s")

abbrev write_tool : McpTool
write_tool = tool (codes "write") (codes "e") (codes "s")

abbrev tools : List McpTool
tools = read_tool ∷ write_tool ∷ []

abbrev empty : ToolPinStore
empty = new (codes "pins.json")

abbrev pinned : Outcome ToolPinStore
pinned = pin_all json 1 (codes "srv") tools empty

abbrev severities : Outcome (List PinChange) → List PinChangeSeverity
severities (ok cs) = map (λ c. c.severity) cs
severities (err e) = []

abbrev store : ToolPinStore
store = elim pinned [ ok s ↦ s | err e ↦ empty ]

abbrev session : ToolPinStore
session = set_session_baseline json (codes "srv") tools store

schema_change_is_high :
    severities
      (check json 2 (codes "srv") (tool (codes "read") (codes "d") (codes "t") ∷ []) false store)
    ≡ high ∷ []
unfolding check lookup pin_all put new text_eq
schema_change_is_high = refl

description_change_is_medium :
    severities
      (check json 2 (codes "srv") (tool (codes "read") (codes "x") (codes "s") ∷ []) false store)
    ≡ medium ∷ []
unfolding check lookup pin_all put new text_eq
description_change_is_medium = refl

-- One tool is new and one is gone.
added_and_removed :
    severities
      (check json 2 (codes "srv") (read_tool ∷ tool (codes "exec") [] [] ∷ []) true session)
    ≡ critical ∷ critical ∷ []
unfolding check lookup set_session_baseline put pin_all new text_eq
added_and_removed = refl

stored : pinned ≡ ok store
unfolding pin_all
stored = refl

differ : codes "read" ≢ codes "write"
differ h =
    let same : text_eq (codes "read") (codes "write") ≡ true =
      (text_eq_iff (codes "read") (codes "write")).1 h in
    cc

distinct : DistinctNames tools
distinct = ((differ, tt), (tt, tt))

check-quiet_example :
    (check json 2 (codes "srv") tools false store ≡ ok [])
    ↔ All (Unchanged json (codes "srv") store.pins.pins) tools
check-quiet_example = check-quiet json 2 (codes "srv") tools store

hashed : Hashed json tools
unfolding hash_tool_full
hashed = ((codes "sha256:readds", refl), ((codes "sha256:writees", refl), tt))

known : lookup (codes "srv") session.session_baseline ≡ some (baseline_from json tools [])
unfolding lookup set_session_baseline put pin_all new text_eq
known = refl

check_mid-quiet_example : (check json 2 (codes "srv") (read_tool ∷ []) true session ≡ ok []) ↔ (
    All (AsBefore json (baseline_from json tools [])) (read_tool ∷ [])
    × NoneGone (read_tool ∷ []) (baseline_from json tools []))
check_mid-quiet_example =
    check_mid-quiet json 2 (codes "srv") (read_tool ∷ []) session (baseline_from json tools [])
      known

abbrev tracked : Tracker
tracked = track_request (codes "1") (codes "tools/list") ((codes "2", codes "tools/call") ∷ [])
