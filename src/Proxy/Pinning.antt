-- ===== src/Proxy/Pinning.antt =====
-- proxy/pinning.go, canon/jcs.go and MCPTool of proxy/mcp_types.go: tool definitions pinned as SSH
-- pins hosts. JSON, the JCS transform, SHA-256 and the files are arguments; a JSON value is opaque.
-- A method under the mutex is one step.
pub mod Check
pub mod Between
pub mod Session
pub mod Tracker
mod Tests
use skillledger.Base.{
  ℕ, Bool, not, Option, none, some, List, [], ◌∷◌, ◌++◌, if◌then◌else◌, Text, codes, text_eq,
  Outcome, ok, err, ◌>>=◌, ◌>>◌, wrap, Dict, lookup, put, remove, keys,
}

-- requestTracker: the method of each pending request id.
abbrev pub Tracker : Type 0
Tracker = Dict Text

-- TrackRequest
unfoldable pub track_request : Text → Text → Tracker → Tracker
track_request id method t = put id method t

-- ResolveResponse
unfoldable pub resolve_response : Text → Tracker → Option Text × Tracker
resolve_response id t = elim (lookup id t) [
  | none ↦ (none, t)
  | some method ↦ (some method, remove id t)
]

pub data PinChangeSeverity : Type 0 where
  critical high medium : PinChangeSeverity

pub record McpTool : Type 0 where
  pub name : Text
  pub description : Text
  pub input_schema : Text

pub record PinEntry : Type 0 where
  pub description_hash : Text
  pub schema_hash : Text
  pub full_hash : Text
  pub description : Text
  pub pinned_at : ℕ
  pub last_verified : ℕ

pub record PinFile : Type 0 where
  pub version : ℕ
  pub pins : Dict PinEntry

pub record PinChange : Type 0 where
  pub server_id : Text
  pub tool_name : Text
  pub severity : PinChangeSeverity
  pub old_hash : Text
  pub new_hash : Text
  pub old_desc : Text
  pub new_desc : Text
  pub mid_session : Bool
  pub detected_at : ℕ

-- encoding/json, the JCS transform, SHA-256 and hex.
pub record Json : Type 0 where
  pub unmarshal : Text → Outcome Text
  pub string_value : Text → Text
  pub nil_value : Text
  pub marshal_string : Text → Text
  pub marshal_tool : Text → Text → Text → Outcome Text  -- name, description, inputSchema
  pub transform : Text → Outcome Text
  pub sha256 : Text → Text
  pub hex : Text → Text

-- pinKey
unfoldable pub pin_key : Text → Text → Text
pin_key server tool = server ++ (codes "::" ++ tool)

-- canon.Canonicalize
unfoldable pub canonicalize : Json → Text → Outcome Text
canonicalize j data_ = wrap (codes "JCS canonicalization failed") (j.transform data_)

abbrev digest : Json → Text → Text
digest j bytes = codes "sha256:" ++ j.hex (j.sha256 bytes)

unfoldable pub schema_value : Json → Text → Text
schema_value j [] = j.nil_value
schema_value j (c ∷ cs) = elim (j.unmarshal (c ∷ cs)) [ err e ↦ j.string_value (c ∷ cs) | ok v ↦ v ]

-- hashToolFull
unfoldable pub hash_tool_full : Json → McpTool → Outcome Text
unfolding schema_value canonicalize
hash_tool_full j t = do
  bytes ←
      wrap (codes "marshal tool for hashing")
        (j.marshal_tool t.name t.description (schema_value j t.input_schema))
  canonical ← wrap (codes "canonicalize tool for hashing") (canonicalize j bytes)
  ok (digest j canonical)

-- hashField
unfoldable pub hash_field : Json → Text → Text
unfolding canonicalize
hash_field j bytes = elim (canonicalize j bytes) [
  | err e ↦ digest j bytes
  | ok canonical ↦ digest j canonical
]

pub record ToolPinStore : Type 0 where
  pub pins : PinFile
  pub path : Text
  pub session_baseline : Dict (Dict Text)

-- NewToolPinStore
unfoldable pub new : Text → ToolPinStore
new path = record { pins = record { version = 1; pins = [] }; path = path; session_baseline = [] }

-- Load; the file is absent (`none`) or read, with or without an error. json.Unmarshal gives `none`
-- for pins that are null or missing. A file in which a single entry is null, for which Go keeps a nil
-- pointer that the checks then dereference, is not represented.
unfoldable pub load :
    (Text → Outcome (ℕ × Option (Dict PinEntry)))
    → Option (Outcome Text)
    → ToolPinStore
    → Outcome (Unit {0}) × ToolPinStore
load decode none s = (ok tt, record s { pins = record { version = 1; pins = [] } })
load decode (some (err e)) s = (err (codes "read pin file: " ++ e), s)
load decode (some (ok bytes)) s = elim (decode bytes) [
  | err e ↦ (err (codes "decode pin file: " ++ e), s)
  | ok (version, pins) ↦ (
    ok tt,
    record s { pins = record { version = version; pins = elim pins [ none ↦ [] | some ps ↦ ps ] } },
  )
]

-- The pin file: absent, or what reading it gives.
abbrev pub StoredPins : Type 0
StoredPins = Option (Outcome Text)

-- Save: its error, and the pin file afterwards. `write` is afero.WriteFile, which may leave anything
-- in the file when it fails.
unfoldable pub save :
    Outcome (Unit {0})
    → (PinFile → Outcome Text)
    → (Text → StoredPins → Outcome (Unit {0}) × StoredPins)
    → ToolPinStore
    → StoredPins
    → Outcome (Unit {0}) × StoredPins
save mkdir encode write s file = elim mkdir [
  | err e ↦ (err (codes "create pin directory: " ++ e), file)
  | ok _ ↦ elim (encode s.pins) [
    | err e ↦ (err (codes "encode pin file: " ++ e), file)
    | ok bytes ↦
        let (written, file') = write bytes file in (wrap (codes "write pin file") written, file')
  ]
]

abbrev set_pin : Text → PinEntry → ToolPinStore → ToolPinStore
set_pin key e s = record s { pins = record s.pins { pins = put key e s.pins.pins } }

unfoldable pub entry_of : Json → McpTool → Text → ℕ → ℕ → PinEntry
unfolding hash_field
entry_of j t full_hash pinned_at now = record {
  description_hash = hash_field j (j.marshal_string t.description);
  schema_hash = hash_field j t.input_schema;
  full_hash = full_hash;
  description = t.description;
  pinned_at = pinned_at;
  last_verified = now;
}

-- hash_tool_full with the context that Pin, Check and Accept give its error.
abbrev pub hash_named : Json → McpTool → Outcome Text
hash_named j t = wrap (codes "hash tool " ++ t.name) (hash_tool_full j t)

-- Pin; the store is unchanged on an error.
unfoldable pub pin : Json → ℕ → Text → McpTool → ToolPinStore → Outcome ToolPinStore
unfolding hash_tool_full pin_key entry_of
pin j now server t s = do
  full_hash ← hash_named j t
  ok (set_pin (pin_key server t.name) (entry_of j t full_hash now now) s)

-- PinAll, for a run without an error.
unfoldable pub pin_all : Json → ℕ → Text → List McpTool → ToolPinStore → Outcome ToolPinStore
unfolding pin
pin_all j now server [] s = ok s
pin_all j now server (t ∷ ts) s = do s' ← pin j now server t s; pin_all j now server ts s'

abbrev baseline_with : Json → McpTool → Dict Text → Dict Text
baseline_with j t baseline = elim (hash_tool_full j t) [
  | err e ↦ baseline
  | ok h ↦ put t.name h baseline
]

-- The loop of SetSessionBaseline.
unfoldable pub baseline_from : Json → List McpTool → Dict Text → Dict Text
unfolding hash_tool_full
baseline_from j [] baseline = baseline
baseline_from j (t ∷ ts) baseline = baseline_from j ts (baseline_with j t baseline)

-- SetSessionBaseline
unfoldable pub set_session_baseline : Json → Text → List McpTool → ToolPinStore → ToolPinStore
unfolding baseline_from
set_session_baseline j server ts s = record s {
  session_baseline = put server (baseline_from j ts []) s.session_baseline;
}

-- classifyPinChangeFromHashes
unfoldable pub classify_pin_change_from_hashes : PinEntry → Text → Text → PinChangeSeverity
classify_pin_change_from_hashes old desc_hash schema_hash =
    if not (text_eq old.schema_hash schema_hash)
    then high
    else if not (text_eq old.description_hash desc_hash)
    then medium
    else medium

abbrev pub classify : Json → PinEntry → McpTool → PinChangeSeverity
classify j old t =
    classify_pin_change_from_hashes old (hash_field j (j.marshal_string t.description))
      (hash_field j t.input_schema)

-- classifyPinChange
unfoldable pub classify_pin_change : Json → Option PinEntry → McpTool → Bool → PinChangeSeverity
unfolding classify_pin_change_from_hashes hash_field
classify_pin_change j none t mid_session = if mid_session then critical else medium
classify_pin_change j (some old) t mid_session = classify j old t

-- PinKeys
unfoldable pub pin_keys : ToolPinStore → List Text
pin_keys s = keys s.pins.pins

abbrev pinned_at_or : ℕ → Option PinEntry → ℕ
pinned_at_or now none = now
pinned_at_or now (some e) = e.pinned_at

-- Accept; the key is made of the given name, not of the tool's.
unfoldable pub accept : Json → ℕ → Text → Text → McpTool → ToolPinStore → Outcome ToolPinStore
unfolding hash_tool_full pin_key entry_of
accept j now server tool_name t s = do
  full_hash ← hash_named j t
  ok (
      set_pin (pin_key server tool_name)
        (entry_of j t full_hash (pinned_at_or now (lookup (pin_key server tool_name) s.pins.pins))
          now)
        s)
