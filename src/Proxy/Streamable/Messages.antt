-- ===== src/Proxy/Streamable/Messages.antt =====
-- The messages of proxy/mcp_streamable.go and their relay; checkLocalhostOrigin.
use skillledger.Base.{
  ℕ, ◌+◌, Bool, false, ◌||◌, not, Option, none, some, List, [], ◌∷◌, ◌++◌, map, ltb, if◌then◌else◌,
  nat_eq, length, Text, codes, text_eq, text_eq_inst, Outcome, ok, err, Dict, lookup,
}
use skillledger.Proxy.Scanner.{ActionType, Finding}
use skillledger.Proxy.DecisionLog.{DecisionEntry, zero_entry, add}
use skillledger.Proxy.Pinning.{track_request, resolve_response}
use skillledger.Proxy.JsonRpc.{
  JsonRpcMessage, is_request, is_response, parse_tools_list, parse_json_rpc,
}
use skillledger.Proxy.TwoPass.Injection.{InjectionScanner, scan_message}
use skillledger.Proxy.Mcp.{World}
use skillledger.Proxy.Streamable.{
  StreamableProxy, write_to_violations, record_violations, action_of, first_tools_list,
  subsequent_tools_list,
}

-- handleToolsListResponse, for a message with this result.
unfoldable pub tools_list_response : World → Text → StreamableProxy → StreamableProxy
unfolding first_tools_list subsequent_tools_list
tools_list_response w result p = elim (parse_tools_list w.unmarshal_tools result) [
  | err e ↦ p
  | ok tools ↦ elim p.pin_store [
    | none ↦ p
    | some st ↦
        if not p.session_pinned
        then first_tools_list w tools st p
        else subsequent_tools_list w tools st p
  ]
]

-- The entry of handleToolsCallResponse for a finding.
unfoldable pub call_entry : StreamableProxy → Finding → DecisionEntry
unfolding action_of
call_entry p f = record zero_entry {
  direction = codes "response";
  method = codes "tools/call";
  decision = action_of p.policy_config (codes "prompt_injection");
  reason = codes "injection finding: " ++ f.description;
  protocol = codes "mcp-streamable";
  destination = p.target_url;
  findings = f ∷ [];
}

-- handleToolsCallResponse
unfoldable pub tools_call_response :
    World → InjectionScanner → JsonRpcMessage → StreamableProxy → StreamableProxy
unfolding record_violations call_entry
tools_call_response w scanner msg p =
    record_violations w (map (call_entry p) (scan_message scanner msg (codes "response"))) p

-- The switch of handleResponse.
unfoldable pub by_method : World → Text → JsonRpcMessage → StreamableProxy → StreamableProxy
unfolding tools_list_response tools_call_response
by_method w method msg p =
    if text_eq method (codes "tools/list")
    then elim msg.result [ none ↦ p | some result ↦ tools_list_response w result p ]
    else if text_eq method (codes "tools/call")
    then elim msg.result [
      | none ↦ p
      | some result ↦ elim p.inj_scanner [
        | none ↦ p
        | some scanner ↦ tools_call_response w scanner msg p
      ]
    ]
    else p

-- string(msg.ID): a missing id is the empty key.
abbrev key_of : Option Text → Text
key_of none = []
key_of (some id) = id

-- handleResponse
unfoldable pub response_message : World → JsonRpcMessage → StreamableProxy → StreamableProxy
unfolding by_method
response_message w msg p =
    let (method, tracker') = resolve_response (key_of msg.id) p.tracker in
    let p' = record p { tracker = tracker' } in
    elim method [ none ↦ p' | some m ↦ by_method w m msg p' ]

-- inspectMessage; a notification is only logged.
unfoldable pub inspect : World → JsonRpcMessage → Text → StreamableProxy → StreamableProxy
unfolding response_message
inspect w msg direction p =
    if text_eq direction (codes "request")
    then (if is_request msg
        then record p { tracker = track_request (key_of msg.id) msg.method p.tracker }
        else p)
    else if text_eq direction (codes "response")
    then (if is_response msg then response_message w msg p else p)
    else p

-- The entry of relayWebSocket for a message.
unfoldable pub frame_entry : StreamableProxy → Text → Text → DecisionEntry
frame_entry p direction method = record zero_entry {
  direction = direction;
  method = method;
  decision = ActionType.allow;
  reason = codes "passthrough (Phase 9)";
  protocol = codes "mcp-streamable";
  destination = p.target_url;
}

-- Record and, for an entry with findings, WriteFindings.
unfoldable pub record_frame : World → DecisionEntry → StreamableProxy → StreamableProxy
unfolding write_to_violations
record_frame w e p = record p {
  decision_log = add (w.outside p.records) e p.decision_log;
  violation_writer =
      if ltb 0 (length e.findings)
      then write_to_violations (w.outside p.records) e p.violation_writer
      else p.violation_writer;
  records = p.records + 1;
}

-- The part of relayWebSocket before a message is forwarded.
unfoldable pub inspect_frame : World → Text → Text → StreamableProxy → StreamableProxy
unfolding inspect record_frame frame_entry
inspect_frame w direction bytes p = elim (parse_json_rpc w.unmarshal_message bytes) [
  | err e ↦ p
  | ok msg ↦ record_frame w (frame_entry p direction msg.method) (inspect w msg direction p)
]

-- A WebSocket message: its type and its data.
pub record Frame : Type 0 where
  pub message_type : ℕ
  pub data_ : Text

pub record Sent : Type 0 where
  pub frames : List Frame
  pub proxy : StreamableProxy
  pub error : Text

-- relayWebSocket over the messages that ReadMessage gives and the error that ends them: the loop
-- has no other end than an error. `broken` is the error of writing these data, if any.
unfoldable pub relay_web_socket :
    World → Text → (Text → Option Text) → Text → List Frame → StreamableProxy → Sent
unfolding inspect_frame
relay_web_socket w direction broken read_error [] p = record {
  frames = [];
  proxy = p;
  error = codes "read " ++ (direction ++ (codes ": " ++ read_error));
}
relay_web_socket w direction broken read_error (f ∷ fs) p =
    let p' = inspect_frame w direction f.data_ p in
    elim (broken f.data_) [
      | some e ↦ record {
        frames = [];
        proxy = p';
        error = codes "write " ++ (direction ++ (codes ": " ++ e));
      }
      | none ↦
          let rest = relay_web_socket w direction broken read_error fs p' in
          record rest { frames = f ∷ rest.frames }
    ]

-- checkLocalhostOrigin; `hostname` is Hostname of what url.Parse returns.
unfoldable pub check_localhost_origin : (Text → Outcome Text) → Dict Text → Bool
unfolding lookup
check_localhost_origin hostname header = elim (lookup (codes "Origin") header) [
  | none ↦ false
  | some origin ↦ if text_eq origin [] then false else elim (hostname origin) [
    | err e ↦ false
    | ok host ↦
        text_eq host (codes "localhost")
        || text_eq host (codes "127.0.0.1")
        || text_eq host (codes "::1")
        || text_eq host (codes "[::1]")
  ]
]
