-- ===== src/Proxy/Mcp/Tests.antt =====
-- Runs of proxy/mcp_stdio.go, and its theorems at concrete inputs.
use skillledger.Proxy.Pinning.Check.{check}
use skillledger.Base.{
  ◌≡◌, refl, ◌≢◌, ◌↔◌, ◌⊎◌, Bool, true, false, Option, none, some, List, [], ◌∷◌, ◌++◌, map,
  if◌then◌else◌, take, All, Text, codes, text_eq, text_eq_iff, has_prefix, ok, err, lookup, put,
  keys,
}
use skillledger.Proxy.Scanner.{block}
use skillledger.Proxy.DecisionLog.{DecisionEntry, new, recent, add}
use skillledger.Proxy.Pinning
use skillledger.Proxy.Pinning.{
  McpTool, PinChange, Json, ToolPinStore, pin_key, pin_all, set_session_baseline, baseline_from,
  save,
}
use skillledger.Proxy.Pinning.Between.{DistinctNames, Unchanged}
use skillledger.Proxy.Pinning.Session.{AsBefore, NoneGone}
use skillledger.Proxy.JsonRpc.{JsonRpcMessage, parse_tools_list}
use skillledger.Proxy.Mcp.{
  World, Session, new_mcp_wrapper, record_all, between_entry, server_has_pins,
  handle_first_tools_list,
}
use skillledger.Proxy.Mcp.Messages.{relay_with_inspection, handle_tools_list_response}
use skillledger.Proxy.Mcp.Relay.{inspect_all, relay_with_inspection-forwards}
use skillledger.Proxy.Mcp.RugPull.{Unhashable, handle_tools_list_response-blocks}
use skillledger.Proxy.Mcp.Lists.{loaded, OfPinned, Hashable, handle_first_tools_list-pinned}
use skillledger.Proxy.Mcp.Reconnect.{reconnect-quiet}

-- The identity hash of the name, the description and the schema, one after the other.
abbrev json : Json
json = record {
  unmarshal = ok;
  string_value = λ s. s;
  nil_value = codes "null";
  marshal_string = λ s. s;
  marshal_tool = λ name description schema. ok (name ++ (description ++ schema));
  transform = ok;
  sha256 = λ bytes. bytes;
  hex = λ bytes. bytes;
}

abbrev tool : Text → Text → McpTool
tool name description = record { name = name; description = description; input_schema = codes "s" }

abbrev tools : List McpTool
tools = tool (codes "read") (codes "d") ∷ tool (codes "write") (codes "e") ∷ []

abbrev changed_tools : List McpTool
changed_tools = tool (codes "read") (codes "evil") ∷ tool (codes "exec") (codes "x") ∷ []

abbrev empty : ToolPinStore
empty = Pinning.new (codes "pins.json")

abbrev pinned : ToolPinStore
pinned = elim (pin_all json 1 (codes "srv") tools empty) [ ok s ↦ s | err e ↦ empty ]

abbrev message : Option Text → Text → Option Text → JsonRpcMessage
message id method result = record {
  jsonrpc = codes "2.0";
  id = id;
  method = method;
  params = none;
  result = result;
  error = none;
}

-- The line "list" asks for the tools; any other line is the response with this result.
abbrev world : World
world = record {
  json = json;
  unmarshal_message = λ line. ok (
      if text_eq line (codes "list")
      then message (some (codes "1")) (codes "tools/list") none
      else message (some (codes "1")) [] (some line));
  unmarshal_tools = λ result. ok (if text_eq result (codes "tools") then tools else changed_tools);
  decode_pins =
      λ bytes. if text_eq bytes (codes "file") then ok (1, some pinned.pins.pins) else err [];
  encode_pins = λ pins. ok (codes "file");
  make_directory = ok tt;
  write_pins = λ bytes file. (ok tt, some (ok bytes));
  outside = λ n. record {
    new_action_id = n ∷ [];
    now = 1;
    marshal = λ e. none;
    write = λ file line. file;
  };
}

abbrev fresh : Session
fresh = new_mcp_wrapper (codes "srv") [] (new 4) (some empty) none none none

abbrev reasons : Option (List DecisionEntry) → List (Text × Bool)
reasons none = []
reasons (some es) = map (λ e. (take 8 e.reason, elim e.decision [ block ↦ true | _ ↦ false ])) es

-- Two lists of tools in one session: the second differs in two tools and misses one.
abbrev lines : List Text
lines = codes "list" ∷ codes "tools" ∷ codes "list" ∷ codes "other" ∷ []

abbrev second : Session
second = record fresh {
  pin_store = some (set_session_baseline json (codes "srv") tools pinned);
  session_pinned = true;
}

rug_pull :
    reasons (recent 9 (handle_tools_list_response world (codes "other") second).decision_log)
    ≡ (codes "MID-SESS", true) ∷ (codes "MID-SESS", true) ∷ (codes "MID-SESS", true) ∷ []
unfolding recent handle_tools_list_response parse_tools_list check lookup set_session_baseline put
    pin_all Pinning.new text_eq new_mcp_wrapper add new
rug_pull = refl

relay_with_inspection-forwards_example :
    let out = relay_with_inspection world (codes "response") (λ line. none) none lines fresh in
    (out.written ≡ map (λ line. line ++ 10 ∷ []) lines)
    × (out.session ≡ inspect_all world (codes "response") lines fresh)
    × (out.result ≡ ok tt)
relay_with_inspection-forwards_example =
    relay_with_inspection-forwards world (codes "response") (λ line. none) none lines fresh
      (refl, (refl, (refl, (refl, tt))))

baseline_known :
    lookup (codes "srv") (set_session_baseline json (codes "srv") tools pinned).session_baseline
    ≡ some (baseline_from json tools [])
unfolding lookup set_session_baseline put pin_all Pinning.new text_eq
baseline_known = refl

parsed : parse_tools_list world.unmarshal_tools (codes "other") ≡ ok changed_tools
unfolding parse_tools_list text_eq
parsed = refl

handle_tools_list_response-blocks_example :
    (es : List DecisionEntry) × All (λ e. e.decision ≡ block) es
    × ((handle_tools_list_response world (codes "other") second).decision_log
        ≡ (record_all world es second).decision_log)
    × ((es ≡ []) ↔ (
        (All (AsBefore json (baseline_from json tools [])) changed_tools
          × NoneGone changed_tools (baseline_from json tools []))
        ⊎ Unhashable json changed_tools))
unfolding new_mcp_wrapper text_eq
handle_tools_list_response-blocks_example =
    handle_tools_list_response-blocks world (codes "other") changed_tools
      (set_session_baseline json (codes "srv") tools pinned) second (baseline_from json tools [])
      refl refl baseline_known parsed

abbrev reopened : Session
reopened = record fresh { pin_file = some (ok (codes "file")) }

has_pins : server_has_pins (codes "srv") (loaded world empty reopened) ≡ true
unfolding server_has_pins Pinning.pin_keys keys Pinning.load text_eq pin_all put Pinning.new
    has_prefix
has_pins = refl

handle_first_tools_list-pinned_example :
    let s' = handle_first_tools_list world changed_tools empty reopened in
    let pins = (loaded world empty reopened).pins in
    (s'.pin_file ≡ some (ok (codes "file")))
    × ((st : ToolPinStore) × (s'.pin_store ≡ some st) × (st.pins ≡ pins))
    × ((cs : List PinChange) × All (OfPinned (codes "srv") pins.pins) cs
        × (s'.decision_log
            ≡ (record_all world (map (between_entry reopened) cs) reopened).decision_log)
        × (All (Hashable json) changed_tools
            → (cs ≡ []) ↔ All (Unchanged json (codes "srv") pins.pins) changed_tools))
    × ((before after : List McpTool) (t : McpTool)
        → changed_tools ≡ before ++ (t ∷ after)
        → lookup (pin_key (codes "srv") t.name) pins.pins ≡ none
        → let without = handle_first_tools_list world (before ++ after) empty reopened in
          (s'.decision_log ≡ without.decision_log) × (s'.violations ≡ without.violations))
unfolding new_mcp_wrapper text_eq
handle_first_tools_list-pinned_example =
    handle_first_tools_list-pinned world changed_tools empty reopened has_pins

between :
    reasons (recent 9 (handle_first_tools_list world changed_tools empty reopened).decision_log)
    ≡ (codes "between-", false) ∷ []
unfolding recent handle_first_tools_list check lookup Pinning.load text_eq pin_all put Pinning.new
    new_mcp_wrapper add new
between = refl

differ : codes "read" ≢ codes "write"
differ h =
    let same : text_eq (codes "read") (codes "write") ≡ true =
      (text_eq_iff (codes "read") (codes "write")).1 h in
    cc

distinct : DistinctNames tools
distinct = ((differ, tt), (tt, tt))

pinned_ok : pin_all json 1 (codes "srv") tools (loaded world empty fresh) ≡ ok pinned
unfolding pin_all Pinning.new Pinning.load new_mcp_wrapper
pinned_ok = refl

saved :
    save world.make_directory world.encode_pins world.write_pins pinned none
    ≡ (ok tt, some (ok (codes "file")))
unfolding save
saved = refl

decoded : world.decode_pins (codes "file") ≡ ok (1, some pinned.pins.pins)
unfolding text_eq
decoded = refl

reopened_file : reopened.pin_file ≡ (handle_first_tools_list world tools empty fresh).pin_file
unfolding handle_first_tools_list check lookup Pinning.load new_mcp_wrapper Pinning.pin_keys keys
    pin_all save
reopened_file = refl

reconnect-quiet_example :
    ((handle_first_tools_list world tools empty fresh).pin_file ≡ some (ok (codes "file")))
    × ((handle_first_tools_list world tools empty fresh).decision_log ≡ fresh.decision_log)
    × ((handle_first_tools_list world tools empty reopened).decision_log ≡ reopened.decision_log)
    × ((t : McpTool) (us : List McpTool)
        → tools ≡ t ∷ us
        → (handle_first_tools_list world tools empty reopened).pin_file ≡ reopened.pin_file)
unfolding new_mcp_wrapper text_eq
reconnect-quiet_example =
    reconnect-quiet world tools empty empty pinned fresh reopened (codes "file") 1 distinct refl
      pinned_ok saved decoded refl reopened_file
