-- ===== src/Proxy/Streamable.antt =====
-- proxy/mcp_streamable.go: the proxy for MCP over WebSockets, with handlers of its own. Its children
-- have the messages and the relay, and what they have in common with the wrapper of proxy/mcp_stdio.go.
-- Upgrading and dialling connections, and the two relays of a connection at once, are not modelled.
pub mod Messages
pub mod Relay
pub mod Same
mod Tests
use skillledger.Base.{
  ℕ, zero, suc, ◌+◌, ◌-◌, ◌*◌, ◌/◌, ◌%◌, ◌^◌, ◌≤◌, ◌<◌, min, ◌≡◌, refl, sym, ap, ◌∙◌, fun_ext, ◌≢◌,
  ◌↔◌, ◌⊎◌, inl, inr, Bool, true, false, ◌&&◌, ◌||◌, not, Option, none, some, List, [], ◌∷◌, ◌++◌,
  map, append-nil, append_assoc, arith, ltb, leb, nat_beq, if◌then◌else◌, nat_beq_iff, ltb→lt,
  leb→le, Eq, ◌==◌, nat_eq, Bool-cases, Option-cases, length, get_elem?, set, take, drop, replicate,
  length-append, length-set, length-replicate, length-take, length-drop, get_elem?-set_self,
  get_elem?-set_ne, get_elem?-lt, take-drop-suc, take-min, take-take, take-append-drop, drop-append,
  List-cases, All, All-append, All-map, Text, codes, text_eq, text_eq→≡, text_eq_iff, text_eq_inst,
  join, has_prefix, has_suffix, to_lower, Outcome, ok, err, ◌>>=◌, ◌>>◌, wrap, Outcome-cases,
  >>=-ok, wrap-ok, trim_space, split_on, text_leb, insert_sorted, sort_strings, Dict, lookup, put,
  remove, keys, lookup-put, lookup-put_self, lookup-put_ne, lookup-remove, length-put,
}
use skillledger.Proxy.Scanner.{ActionType, block, warn, Finding}
use skillledger.Proxy.DecisionLog.{
  DecisionEntry, zero_entry, DecisionLog, Outside, add, write_findings,
}
use skillledger.Proxy.PolicyConfig.{PolicyConfig, action_for}
use skillledger.Proxy.Pinning.{
  Tracker, McpTool, PinChange, ToolPinStore, StoredPins, load, pin_all, pin_keys,
  set_session_baseline,
}
use skillledger.Proxy.Pinning.Check.{check}
use skillledger.Proxy.TwoPass.Injection.{InjectionScanner}
use skillledger.Proxy.Mcp.{World, severity_name, changes_or_none, pin_until_error, saved_file}

-- StreamableProxy, with the pin file of its store and the violation file of its writer. `records`
-- counts the records so far.
pub record StreamableProxy : Type 0 where
  pub target_url : Text
  pub decision_log : DecisionLog
  pub pin_store : Option ToolPinStore
  pub pin_file : StoredPins
  pub inj_scanner : Option InjectionScanner
  pub tracker : Tracker
  pub server_id : Text
  pub session_pinned : Bool
  pub policy_config : Option PolicyConfig
  pub violation_writer : Option Text
  pub records : ℕ

-- NewStreamableProxy
unfoldable pub new_streamable_proxy :
    Text
    → DecisionLog
    → Option ToolPinStore
    → StoredPins
    → Option InjectionScanner
    → Option PolicyConfig
    → StreamableProxy
new_streamable_proxy target dl store pin_file scanner config = record {
  target_url = target;
  decision_log = dl;
  pin_store = store;
  pin_file = pin_file;
  inj_scanner = scanner;
  tracker = [];
  server_id = target;
  session_pinned = false;
  policy_config = config;
  violation_writer = none;
  records = 0;
}

-- SetViolationWriter, for a writer of this file.
unfoldable pub set_violation_writer : Option Text → StreamableProxy → StreamableProxy
set_violation_writer file p = record p { violation_writer = file }

-- WriteFindings, if there is a writer; its error is only logged.
unfoldable pub write_to_violations : Outside → DecisionEntry → Option Text → Option Text
unfolding write_findings
write_to_violations o e none = none
write_to_violations o e (some file) = elim (write_findings o.marshal o.write e file) [
  | none ↦ some file
  | some file' ↦ some file'
]

-- The end of the loops over changes and over findings.
unfoldable pub record_violation : World → DecisionEntry → StreamableProxy → StreamableProxy
unfolding write_to_violations
record_violation w e p = record p {
  decision_log = add (w.outside p.records) e p.decision_log;
  violation_writer = write_to_violations (w.outside p.records) e p.violation_writer;
  records = p.records + 1;
}

unfoldable pub record_violations : World → List DecisionEntry → StreamableProxy → StreamableProxy
unfolding record_violation
record_violations w [] p = p
record_violations w (e ∷ es) p = record_violations w es (record_violation w e p)

-- The action for a kind of violation, which is ActionWarn without a policy.
unfoldable pub action_of : Option PolicyConfig → Text → ActionType
action_of none violation = warn
action_of (some pc) violation = action_for pc violation

-- The entry of handleFirstToolsList for a change.
unfoldable pub first_entry : StreamableProxy → PinChange → DecisionEntry
unfolding action_of
first_entry p c =
    let action = action_of p.policy_config (codes "pin_change_between") in
    record zero_entry {
      direction = codes "response";
      method = codes "tools/list";
      decision = action;
      reason =
          codes "between-session pin change: tool="
          ++ (c.tool_name
              ++ (codes " severity="
                  ++ (severity_name c.severity
                      ++ (codes " old=" ++ (c.old_hash ++ (codes " new=" ++ c.new_hash))))));
      protocol = codes "mcp-streamable";
      destination = p.target_url;
      findings =
          record {
            scanner = codes "pinchange";
            severity = severity_name c.severity;
            description = codes "between-session pin change for tool " ++ c.tool_name;
            pattern = c.tool_name;
            match_value = codes "old=" ++ (c.old_hash ++ (codes " new=" ++ c.new_hash));
            decision = action;
          }
          ∷ [];
    }

-- The entry of handleSubsequentToolsList for a change.
unfoldable pub subsequent_entry : StreamableProxy → PinChange → DecisionEntry
subsequent_entry p c = record zero_entry {
  direction = codes "response";
  method = codes "tools/list";
  decision = block;
  reason =
      codes "MID-SESSION RUG-PULL: tool="
      ++ (c.tool_name
          ++ (codes " severity="
              ++ (severity_name c.severity
                  ++ (codes " old=" ++ (c.old_hash ++ (codes " new=" ++ c.new_hash))))));
  protocol = codes "mcp-streamable";
  destination = p.target_url;
  findings =
      record {
        scanner = codes "pinchange";
        severity = severity_name c.severity;
        description = codes "mid-session rug-pull for tool " ++ c.tool_name;
        pattern = c.tool_name;
        match_value = codes "old=" ++ (c.old_hash ++ (codes " new=" ++ c.new_hash));
        decision = block;
      }
      ∷ [];
}

unfoldable pub some_key : Text → List Text → Bool
some_key prefix [] = false
some_key prefix (key ∷ rest) =
    let found = some_key prefix rest in if has_prefix prefix key then true else found

-- serverHasPins
unfoldable pub has_pins : Text → ToolPinStore → Bool
unfolding some_key
has_pins server st = some_key (server ++ codes "::") (pin_keys st)

-- PinAll and, if there is no error, Save. On an error of PinAll, the tools before the one that fails
-- are pinned.
unfoldable pub pin_first :
    World → ℕ → Text → List McpTool → ToolPinStore → StoredPins → ToolPinStore × StoredPins
unfolding pin_until_error saved_file
pin_first w now server tools st file = elim (pin_all w.json now server tools st) [
  | err e ↦ (pin_until_error w now server tools st, file)
  | ok st' ↦ (st', saved_file w st' file)
]

-- handleFirstToolsList
unfoldable pub first_tools_list :
    World → List McpTool → ToolPinStore → StreamableProxy → StreamableProxy
unfolding changes_or_none has_pins pin_first record_violations first_entry
first_tools_list w tools store p =
    let now = (w.outside p.records).now in
    let loaded = (load w.decode_pins p.pin_file store).1 in
    let changes = changes_or_none (check w.json now p.server_id tools false loaded) in
    let first = nat_beq (length changes) 0 && not (has_pins p.server_id loaded) in
    let (st, file) =
      if first then pin_first w now p.server_id tools loaded p.pin_file else (loaded, p.pin_file) in
    let reported =
      if first
      then p
      else if ltb 0 (length changes)
      then record_violations w (map (first_entry p) changes) p
      else p in
    record reported {
      pin_store = some (set_session_baseline w.json p.server_id tools st);
      pin_file = file;
      session_pinned = true;
    }

-- handleSubsequentToolsList
unfoldable pub subsequent_tools_list :
    World → List McpTool → ToolPinStore → StreamableProxy → StreamableProxy
unfolding changes_or_none record_violations subsequent_entry
subsequent_tools_list w tools st p =
    let now = (w.outside p.records).now in
    let changes = changes_or_none (check w.json now p.server_id tools true st) in
    record (record_violations w (map (subsequent_entry p) changes) p) {
      pin_store = some (set_session_baseline w.json p.server_id tools st);
    }
