-- ===== src/Proxy/Streamable/Tests.antt =====
-- Runs of proxy/mcp_streamable.go, and its theorems at concrete inputs.
use skillledger.Base.{
  ◌≡◌, refl, true, false, Option, none, some, List, [], ◌∷◌, ◌++◌, if◌then◌else◌, nat_eq, Text,
  codes, text_eq, text_eq_inst, ok, err,
}
use skillledger.Proxy.DecisionLog
use skillledger.Proxy.Mcp.{World}
use skillledger.Proxy.Pinning
use skillledger.Proxy.Pinning.{McpTool}
use skillledger.Proxy.Streamable.{StreamableProxy, new_streamable_proxy, set_violation_writer}
use skillledger.Proxy.Streamable.Messages.{Frame, relay_web_socket, check_localhost_origin}
use skillledger.Proxy.Streamable.Relay.{relay_web_socket-forwards}

abbrev world : World
world = record {
  json = record {
    unmarshal = ok;
    string_value = λ s. s;
    nil_value = codes "null";
    marshal_string = λ s. s;
    marshal_tool = λ name description schema. ok (name ++ (description ++ schema));
    transform = ok;
    sha256 = λ bytes. bytes;
    hex = λ bytes. bytes;
  };
  unmarshal_message = λ line. ok (record {
    jsonrpc = codes "2.0";
    id = some (codes "1");
    method = if text_eq line (codes "first") then [] else line;
    params = none;
    result = if text_eq line (codes "first") then some line else none;
    error = none;
  });
  unmarshal_tools = λ result. ok [];
  decode_pins = λ bytes. err [];
  encode_pins = λ pins. ok [];
  make_directory = ok tt;
  write_pins = λ bytes file. (ok tt, some (ok bytes));
  outside = λ n. record {
    new_action_id = n ∷ [];
    now = 1;
    marshal = λ e. none;
    write = λ file line. file;
  };
}

abbrev fresh : StreamableProxy
fresh = set_violation_writer (some []) (
    new_streamable_proxy (codes "ws://h") (DecisionLog.new 4) (some (Pinning.new [])) none none
      none)

abbrev frame : Text → Frame
frame t = record { message_type = 1; data_ = t }

abbrev frames : List Frame
frames = frame (codes "tools/list") ∷ frame (codes "ping") ∷ []

-- Writing the second message fails.
abbrev broken : Text → Option Text
broken t = if text_eq t (codes "ping") then some (codes "closed") else none

write_error :
    (relay_web_socket world (codes "request") broken (codes "eof") frames fresh).error
    ≡ codes "write request: closed"
unfolding relay_web_socket text_eq
write_error = refl

-- A request for the tools, then a list and another list in one session.
abbrev listing : List Frame
listing = frame (codes "first") ∷ frame (codes "second") ∷ []

abbrev asked : StreamableProxy
asked = record fresh { tracker = (codes "1", codes "tools/list") ∷ [] }

forwarded :
    (relay_web_socket world (codes "request") (λ t. none) (codes "eof") frames fresh).frames
    ≡ frames
forwarded =
    (relay_web_socket-forwards world (codes "request") (λ t. none) (codes "eof") frames fresh
      (refl, (refl, tt))).0

local_origin :
    check_localhost_origin
      (λ o. ok (codes "localhost"))
      ((codes "Origin", codes "http://localhost:1") ∷ [])
    ≡ true
unfolding check_localhost_origin text_eq
local_origin = refl

no_origin : check_localhost_origin (λ o. ok (codes "localhost")) [] ≡ false
unfolding check_localhost_origin
no_origin = refl
