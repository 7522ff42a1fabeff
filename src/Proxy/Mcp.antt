-- ===== src/Proxy/Mcp.antt =====
-- proxy/mcp_stdio.go: a session, and what it does with the lists of tools. Its children have the
-- inspection of the messages between an agent and an MCP server, and their relay. Starting and
-- stopping the process, the pipes and logging are not modelled. The two relay goroutines share the
-- session; a message is inspected in one step. The pin store is the wrapper's own.
pub mod Lists
pub mod Messages
pub mod Reconnect
pub mod Relay
pub mod RugPull
mod Tests
use skillledger.Base.{
  ℕ, ◌+◌, Bool, true, false, ◌&&◌, ◌||◌, not, Option, none, some, List, [], ◌∷◌, ◌++◌, map, nat_beq,
  if◌then◌else◌, length, Text, codes, text_eq, has_prefix, Outcome, ok, err, Dict,
}
use skillledger.Proxy.Scanner.{ActionType, block, warn, Finding}
use skillledger.Proxy.DecisionLog.{
  DecisionEntry, zero_entry, DecisionLog, Outside, add, write_findings,
}
use skillledger.Proxy.PolicyConfig.{PolicyConfig, action_for}
use skillledger.Proxy.Pinning.{
  Tracker, PinChangeSeverity, critical, high, medium, McpTool, PinEntry, PinFile, PinChange, Json,
  StoredPins, ToolPinStore, load, save, pin_all, set_session_baseline, pin_keys,
}
use skillledger.Proxy.Pinning.Check.{check}
use skillledger.Proxy.JsonRpc.{JsonRpcMessage}
use skillledger.Proxy.TwoPass.Injection.{InjectionScanner}

-- What the messages are read with: encoding/json, the clock and fresh ids of the n-th record, and
-- the pin file's directory.
pub record World : Type 0 where
  pub json : Json
  pub unmarshal_message : Text → Outcome JsonRpcMessage
  pub unmarshal_tools : Text → Outcome (List McpTool)
  pub decode_pins : Text → Outcome (ℕ × Option (Dict PinEntry))
  pub encode_pins : PinFile → Outcome Text
  pub make_directory : Outcome (Unit {0})
  pub write_pins : Text → StoredPins → Outcome (Unit {0}) × StoredPins
  pub outside : ℕ → Outside

-- MCPWrapper. `records` counts the records so far. `protocol` and `destination` are what its entries
-- say, "mcp-stdio" and nothing, and `violations` is a violation file, which it does not have: as
-- fields they allow a comparison with the proxy of proxy/mcp_streamable.go.
pub record Session : Type 0 where
  pub protocol : Text
  pub destination : Text
  pub skill_id : Text
  pub server_id : Text
  pub policy_config : Option PolicyConfig
  pub inj_scanner : Option InjectionScanner
  pub pin_store : Option ToolPinStore
  pub pin_file : StoredPins
  pub tracker : Tracker
  pub session_pinned : Bool
  pub decision_log : DecisionLog
  pub violations : Option Text
  pub records : ℕ

-- NewMCPWrapper
unfoldable pub new_mcp_wrapper :
    Text
    → Text
    → DecisionLog
    → Option ToolPinStore
    → StoredPins
    → Option InjectionScanner
    → Option PolicyConfig
    → Session
new_mcp_wrapper command skill dl store pin_file scanner config = record {
  protocol = codes "mcp-stdio";
  destination = [];
  skill_id = skill;
  server_id = if text_eq skill [] then command else skill;
  policy_config = config;
  inj_scanner = scanner;
  pin_store = store;
  pin_file = pin_file;
  tracker = [];
  session_pinned = false;
  decision_log = dl;
  violations = none;
  records = 0;
}

-- A write error of the violation file is only logged.
unfoldable pub violations_after : Outside → DecisionEntry → Option Text → Option Text
unfolding write_findings
violations_after o e none = none
violations_after o e (some file) = elim (write_findings o.marshal o.write e file) [
  | none ↦ some file
  | some file' ↦ some file'
]

-- decisionLog.Record, and WriteFindings if there is a violation file.
unfoldable pub record_entry : World → DecisionEntry → Session → Session
unfolding violations_after
record_entry w e s = record s {
  decision_log = add (w.outside s.records) e s.decision_log;
  violations = violations_after (w.outside s.records) e s.violations;
  records = s.records + 1;
}

unfoldable pub record_all : World → List DecisionEntry → Session → Session
unfolding record_entry
record_all w [] s = s
record_all w (e ∷ es) s = record_all w es (record_entry w e s)

abbrev pub severity_name : PinChangeSeverity → Text
severity_name critical = codes "critical"
severity_name high = codes "high"
severity_name medium = codes "medium"

abbrev hashes : PinChange → Text
hashes c = codes "old=" ++ (c.old_hash ++ (codes " new=" ++ c.new_hash))

-- The fields that every entry of a session has.
abbrev pub entry_of : Session → Text → Text → ActionType → Text → List Finding → DecisionEntry
entry_of s direction method decision reason found = record zero_entry {
  direction = direction;
  method = method;
  decision = decision;
  reason = reason;
  protocol = s.protocol;
  destination = s.destination;
  skill_id = s.skill_id;
  findings = found;
}

-- The entry of a pin change; `kind` and `what` begin its reason and its description.
unfoldable pub change_entry : Session → Text → Text → ActionType → PinChange → DecisionEntry
change_entry s kind what action c =
    entry_of s (codes "response") (codes "tools/list") action
      (kind
        ++ (codes ": tool="
            ++ (c.tool_name
                ++ (codes " severity=" ++ (severity_name c.severity ++ (codes " " ++ hashes c))))))
      (record {
        scanner = codes "pinchange";
        severity = severity_name c.severity;
        description = what ++ (codes " for tool " ++ c.tool_name);
        pattern = c.tool_name;
        match_value = hashes c;
        decision = action;
      }
        ∷ [])

-- The action for a kind of violation: warn without a policy.
unfoldable pub action_or_warn : Option PolicyConfig → Text → ActionType
action_or_warn none violation = warn
action_or_warn (some pc) violation = action_for pc violation

abbrev pub between_entry : Session → PinChange → DecisionEntry
between_entry s =
    change_entry s (codes "between-session pin change") (codes "between-session pin change")
      (action_or_warn s.policy_config (codes "pin_change_between"))

abbrev pub rug_pull_entry : Session → PinChange → DecisionEntry
rug_pull_entry s =
    change_entry s (codes "MID-SESSION RUG-PULL") (codes "mid-session rug-pull") block

unfoldable pub any_prefix : Text → List Text → Bool
any_prefix p [] = false
any_prefix p (k ∷ ks) = has_prefix p k || any_prefix p ks

-- serverHasPins
unfoldable pub server_has_pins : Text → ToolPinStore → Bool
unfolding any_prefix
server_has_pins server st = any_prefix (server ++ codes "::") (pin_keys st)

-- The changes of `changes, _ := Check(...)`: an error counts as no changes.
unfoldable pub changes_or_none : Outcome (List PinChange) → List PinChange
changes_or_none (ok cs) = cs
changes_or_none (err e) = []

-- The pin file after Save, whose error is only logged.
unfoldable pub saved_file : World → ToolPinStore → StoredPins → StoredPins
unfolding save
saved_file w st file = (save w.make_directory w.encode_pins w.write_pins st file).1

-- The store and its file after the auto-pin of a first connection. On an error of PinAll, the tools
-- before the one that fails are pinned, and nothing is saved.
unfoldable pub pin_until_error : World → ℕ → Text → List McpTool → ToolPinStore → ToolPinStore
pin_until_error w now server [] st = st
pin_until_error w now server (t ∷ ts) st = elim (pin_all w.json now server (t ∷ []) st) [
  | err e ↦ st
  | ok st' ↦ pin_until_error w now server ts st'
]

unfoldable pub auto_pin :
    World → ℕ → Text → List McpTool → ToolPinStore × StoredPins → ToolPinStore × StoredPins
unfolding pin_until_error saved_file
auto_pin w now server ts (st, file) = elim (pin_all w.json now server ts st) [
  | err e ↦ (pin_until_error w now server ts st, file)
  | ok st' ↦ (st', saved_file w st' file)
]

-- handleFirstToolsList
unfoldable pub handle_first_tools_list : World → List McpTool → ToolPinStore → Session → Session
unfolding server_has_pins changes_or_none auto_pin change_entry action_or_warn record_all
handle_first_tools_list w ts store s =
    let now = (w.outside s.records).now in
    let loaded = (load w.decode_pins s.pin_file store).1 in
    let changes = changes_or_none (check w.json now s.server_id ts false loaded) in
    let (st, file) =
      if nat_beq (length changes) 0 && not (server_has_pins s.server_id loaded)
      then auto_pin w now s.server_id ts (loaded, s.pin_file)
      else (loaded, s.pin_file) in
    record (record_all w (map (between_entry s) changes) s) {
      pin_store = some (set_session_baseline w.json s.server_id ts st);
      pin_file = file;
      session_pinned = true;
    }

-- handleSubsequentToolsList
unfoldable pub handle_subsequent_tools_list :
    World → List McpTool → ToolPinStore → Session → Session
unfolding changes_or_none change_entry record_all
handle_subsequent_tools_list w ts st s =
    let now = (w.outside s.records).now in
    let changes = changes_or_none (check w.json now s.server_id ts true st) in
    record (record_all w (map (rug_pull_entry s) changes) s) {
      pin_store = some (set_session_baseline w.json s.server_id ts st);
    }
