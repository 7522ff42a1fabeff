-- ===== src/Proxy/JsonRpc.antt =====
-- proxy/jsonrpc.go and the results of tool calls in proxy/mcp_types.go. json.Unmarshal is an
-- argument; a json.RawMessage that is nil is `none`.
use skillledger.Base.{
  Bool, true, false, ◌&&◌, ◌||◌, not, Option, none, some, List, [], ◌∷◌, ◌++◌, ltb, if◌then◌else◌,
  length, Text, codes, text_eq, Outcome, ok, err, ◌>>=◌, wrap,
}
use skillledger.Proxy.Pinning.{McpTool}

pub record JsonRpcMessage : Type 0 where
  pub jsonrpc : Text
  pub id : Option Text
  pub method : Text
  pub params : Option Text
  pub result : Option Text
  pub error : Option Text

-- ParseJSONRPC
unfoldable pub parse_json_rpc : (Text → Outcome JsonRpcMessage) → Text → Outcome JsonRpcMessage
parse_json_rpc unmarshal bytes = do
  msg ← wrap (codes "parse JSON-RPC") (unmarshal bytes)
  if text_eq msg.jsonrpc (codes "2.0")
      then ok msg
      else err
          (codes "unsupported JSON-RPC version: " ++ (msg.jsonrpc ++ codes " (expected \"2.0\")"))

abbrev pub is_some : Option Text → Bool
is_some none = false
is_some (some x) = true

-- IsRequest, IsResponse and IsNotification
unfoldable pub is_request : JsonRpcMessage → Bool
is_request m =
    not (text_eq m.method []) && not (is_some m.result) && not (is_some m.error) && is_some m.id

unfoldable pub is_response : JsonRpcMessage → Bool
is_response m = is_some m.result || is_some m.error

unfoldable pub is_notification : JsonRpcMessage → Bool
is_notification m = not (text_eq m.method []) && not (is_some m.id)

-- parseToolsList
unfoldable pub parse_tools_list : (Text → Outcome (List McpTool)) → Text → Outcome (List McpTool)
parse_tools_list unmarshal result = wrap (codes "parse tools/list result") (unmarshal result)

-- MCPContent, the fields that are read.
pub record McpContent : Type 0 where
  pub kind : Text
  pub text : Text

unfoldable pub long_texts : List McpContent → List Text
long_texts [] = []
long_texts (c ∷ cs) =
    let rest = long_texts cs in
    if text_eq c.kind (codes "text") && ltb 50 (length c.text) then c.text ∷ rest else rest

-- extractTextFromToolResult
unfoldable pub extract_text_from_tool_result : (Text → Outcome (List McpContent)) → Text → List Text
unfolding long_texts
extract_text_from_tool_result unmarshal result = elim (unmarshal result) [
  | err e ↦ []
  | ok content ↦ long_texts content
]
