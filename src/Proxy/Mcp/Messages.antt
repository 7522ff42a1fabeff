-- ===== src/Proxy/Mcp/Messages.antt =====
-- The responses to tools/list and tools/call, and the relay of messages: proxy/mcp_stdio.go.
use skillledger.Base.{
  Bool, true, false, Option, none, some, List, [], ◌∷◌, ◌++◌, map, if◌then◌else◌, Text, codes,
  text_eq, Outcome, ok, err,
}
use skillledger.Proxy.Scanner.{ActionType, Finding}
use skillledger.Proxy.DecisionLog.{DecisionEntry}
use skillledger.Proxy.Pinning.{track_request, resolve_response, McpTool, ToolPinStore}
use skillledger.Proxy.JsonRpc.{
  JsonRpcMessage, is_request, is_response, parse_tools_list, parse_json_rpc,
}
use skillledger.Proxy.TwoPass.Injection.{InjectionScanner, scan_message}
use skillledger.Proxy.Mcp.{
  World, Session, entry_of, action_or_warn, record_entry, record_all, handle_first_tools_list,
  handle_subsequent_tools_list,
}

-- The rest of handleToolsListResponse: nothing without a pin store, else by sessionPinned.
unfoldable pub handle_tools_list :
    World → List McpTool → Option ToolPinStore → Bool → Session → Session
unfolding handle_first_tools_list handle_subsequent_tools_list
handle_tools_list w ts none pinned s = s
handle_tools_list w ts (some st) true s = handle_subsequent_tools_list w ts st s
handle_tools_list w ts (some st) false s = handle_first_tools_list w ts st s

-- handleToolsListResponse, for a message with a result.
unfoldable pub handle_tools_list_response : World → Text → Session → Session
unfolding handle_tools_list
handle_tools_list_response w result s = elim (parse_tools_list w.unmarshal_tools result) [
  | err e ↦ s
  | ok ts ↦ handle_tools_list w ts s.pin_store s.session_pinned s
]

abbrev pub injection_entry : Session → Finding → DecisionEntry
injection_entry s f =
    entry_of s (codes "response") (codes "tools/call")
      (action_or_warn s.policy_config (codes "prompt_injection"))
      (codes "injection finding: " ++ f.description) (f ∷ [])

-- handleToolsCallResponse
unfoldable pub handle_tools_call_response :
    World → InjectionScanner → JsonRpcMessage → Session → Session
unfolding record_all action_or_warn
handle_tools_call_response w scanner msg s =
    record_all w (map (injection_entry s) (scan_message scanner msg (codes "response"))) s

-- The switch of handleResponse on the method of the request.
unfoldable pub handle_method : World → Text → JsonRpcMessage → Session → Session
unfolding handle_tools_list_response handle_tools_call_response
handle_method w method msg s = elim msg.result [
  | none ↦ s
  | some result ↦
      if text_eq method (codes "tools/list")
      then handle_tools_list_response w result s
      else if text_eq method (codes "tools/call")
      then elim s.inj_scanner [ none ↦ s | some sc ↦ handle_tools_call_response w sc msg s ]
      else s
]

-- string(msg.ID): a missing id is the empty key.
abbrev pub id_key : JsonRpcMessage → Text
id_key msg = elim msg.id [ none ↦ [] | some id ↦ id ]

-- handleResponse
unfoldable pub handle_response : World → JsonRpcMessage → Session → Session
unfolding handle_method
handle_response w msg s =
    let (method, tracker') = resolve_response (id_key msg) s.tracker in
    let s' = record s { tracker = tracker' } in
    elim method [ none ↦ s' | some m ↦ handle_method w m msg s' ]

-- inspectMessage; a notification is only logged.
unfoldable pub inspect_message : World → JsonRpcMessage → Text → Session → Session
unfolding handle_response
inspect_message w msg direction s =
    if text_eq direction (codes "request")
    then (if is_request msg
        then record s { tracker = track_request (id_key msg) msg.method s.tracker }
        else s)
    else if text_eq direction (codes "response")
    then (if is_response msg then handle_response w msg s else s)
    else s

abbrev pub passthrough_entry : Session → Text → JsonRpcMessage → DecisionEntry
passthrough_entry s direction msg =
    entry_of s direction msg.method ActionType.allow (codes "passthrough (Phase 9)") []

-- The part of the relay loops before a line or frame is forwarded.
unfoldable pub inspect_line : World → Text → Text → Session → Session
unfolding inspect_message record_entry
inspect_line w direction line s = elim (parse_json_rpc w.unmarshal_message line) [
  | err e ↦ s
  | ok msg ↦ record_entry w (passthrough_entry s direction msg) (inspect_message w msg direction s)
]

pub record Relayed : Type 0 where
  pub written : List Text
  pub session : Session
  pub result : Outcome (Unit {0})

-- relayWithInspection over the lines that bufio.Scanner gives and the error it ends with, if any.
-- `broken` is the error of writing this line, if any.
unfoldable pub relay_with_inspection :
    World → Text → (Text → Option Text) → Option Text → List Text → Session → Relayed
unfolding inspect_line
relay_with_inspection w direction broken scan_error [] s = record {
  written = [];
  session = s;
  result = elim scan_error [ none ↦ ok tt | some e ↦ err e ];
}
relay_with_inspection w direction broken scan_error (line ∷ lines) s =
    let s' = inspect_line w direction line s in
    elim (broken line) [
      | some e ↦ record {
        written = [];
        session = s';
        result = err (codes "write to " ++ (direction ++ (codes " pipe: " ++ e)));
      }
      | none ↦
          let rest = relay_with_inspection w direction broken scan_error lines s' in
          record rest { written = (line ++ 10 ∷ []) ∷ rest.written }
    ]
