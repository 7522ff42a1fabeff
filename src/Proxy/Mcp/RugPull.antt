-- ===== src/Proxy/Mcp/RugPull.antt =====
-- tools/list responses within a session: handleSubsequentToolsList of proxy/mcp_stdio.go.
use skillledger.Base.{
  ℕ, ◌≡◌, refl, sym, ap, ◌∙◌, ◌≢◌, ◌↔◌, ◌⊎◌, inl, inr, true, some, List, [], ◌∷◌, ◌++◌, map, arith,
  Option-cases, All, Text, codes, Outcome, ok, err, Outcome-cases, Dict, lookup,
}
use skillledger.Proxy.Scanner.{block}
use skillledger.Proxy.DecisionLog.{DecisionEntry}
use skillledger.Proxy.Pinning.{McpTool, PinEntry, PinChange, Json, ToolPinStore, hash_tool_full}
use skillledger.Proxy.Pinning.Check.{mid_tool, collect, check_mid_session, check}
use skillledger.Proxy.Pinning.Session.{AsBefore, NoneGone, check_mid-quiet}
use skillledger.Proxy.JsonRpc.{parse_tools_list}
use skillledger.Proxy.Mcp.{
  World, Session, record_all, change_entry, rug_pull_entry, changes_or_none,
  handle_subsequent_tools_list,
}
use skillledger.Proxy.Mcp.Messages.{handle_tools_list, handle_tools_list_response}

-- The hash of some tool cannot be computed.
abbrev pub Unhashable : Json → List McpTool → Type 0
Unhashable j [] = ⊥
Unhashable j (t ∷ ts) = ((msg : Text) × (hash_tool_full j t ≡ err msg)) ⊎ Unhashable j ts

ok_ne_err : {A : Type 0} {a : A} {e : Text} → ok a ≢ err e
ok_ne_err h = cc

ok_injective : {a b : List PinChange} → ok a ≡ ok b → a ≡ b
ok_injective h = cc

ok_or_err : {A : Type 0} {o : Outcome A} {a : A} {e : Text} → o ≡ ok a → o ≡ err e → ⊥
ok_or_err h k = absurd (ok_ne_err (sym h ∙ k))

module _ (j : Json) (now : ℕ) (server : Text) (pins : Dict PinEntry) (baseline : Dict Text) where
  mid_tool-hash :
      (t : McpTool) (msg : Text)
      → hash_tool_full j t ≡ err msg
      → mid_tool j now server pins baseline t
        ≡ err (codes "hash tool " ++ t.name ++ (codes ": " ++ msg))
  unfolding mid_tool
  mid_tool-hash t msg h = rw (mid_tool, h)

  mid_tool-err :
      (t : McpTool) (e : Text)
      → mid_tool j now server pins baseline t ≡ err e
      → (msg : Text) × (hash_tool_full j t ≡ err msg)
  unfolding mid_tool
  mid_tool-err t e h = elim (Outcome-cases (hash_tool_full j t)) [
    | inr (msg, eq) ↦ (msg, eq)
    | inl (x, eq) ↦ elim (Option-cases (lookup t.name baseline)) [
      | inl new ↦ absurd (ground arith)
      | inr (old, found) ↦ absurd (ground arith)
    ]
  ]

  collect-err :
      (ts : List McpTool)
      → ((e : Text) × (collect (mid_tool j now server pins baseline) ts ≡ err e)) ↔ Unhashable j ts
  unfolding collect
  collect-err [] = (λ (e, h). absurd cc, λ u. absurd u)
  collect-err (t ∷ ts) = elim (Outcome-cases (mid_tool j now server pins baseline t)) [
    | inr (e, eq) ↦ (λ h. inl (mid_tool-err t e eq), λ u. (e, rw (collect, eq)))
    | inl (c, eq) ↦ elim (Outcome-cases (collect (mid_tool j now server pins baseline) ts)) [
      | inr (e, eq') ↦ (λ h. inr ((collect-err ts).0 (e, eq')), λ u. (e, rw (collect, eq, eq')))
      | inl (cs, eq') ↦ (
        λ (e, h). absurd (ground arith),
        λ u. elim u [
          | inl (msg, h) ↦ absurd (ok_or_err eq (mid_tool-hash t msg h))
          | inr later ↦ absurd (ok_or_err eq' ((collect-err ts).1 later).1)
        ],
      )
    ]
  ]

check_mid-err :
    (j : Json) (now : ℕ) (server : Text) (ts : List McpTool) (s : ToolPinStore)
    (baseline : Dict Text)
    → lookup server s.session_baseline ≡ some baseline
    → ((e : Text) × (check j now server ts true s ≡ err e)) ↔ Unhashable j ts
unfolding check check_mid_session
check_mid-err j now server ts s baseline known =
    let hashes = collect-err j now server s.pins.pins baseline ts in
    elim (Outcome-cases (collect (mid_tool j now server s.pins.pins baseline) ts)) [
      | inr (e, eq) ↦ (λ h. hashes.0 (e, eq), λ u. (e, rw (check, check_mid_session, known, eq)))
      | inl (cs, eq) ↦ (λ (e, h). absurd (ground arith), λ u. absurd (ok_or_err eq (hashes.1 u).1))
    ]

-- One entry for each reported change, each of them a block.
abbrev BlocksOnly : List DecisionEntry → Type 0
BlocksOnly = All (λ e. e.decision ≡ block)

map-BlocksOnly : (s : Session) (cs : List PinChange) → BlocksOnly (map (rug_pull_entry s) cs)
unfolding change_entry
map-BlocksOnly s [] = tt
map-BlocksOnly s (c ∷ cs) = (refl, map-BlocksOnly s cs)

map-empty : (s : Session) (cs : List PinChange) → (map (rug_pull_entry s) cs ≡ []) ↔ (cs ≡ [])
map-empty s [] = (λ h. refl, λ h. refl)
map-empty s (c ∷ cs) = (λ h. absurd cc, λ h. absurd cc)

-- What a check within a session makes the wrapper record.
abbrev rug_pulls : World → List McpTool → ToolPinStore → Session → List DecisionEntry
rug_pulls w ts st s =
    map (rug_pull_entry s)
      (changes_or_none (check w.json (w.outside s.records).now s.server_id ts true st))

rug_pulls-empty :
    (w : World) (ts : List McpTool) (st : ToolPinStore) (s : Session) (baseline : Dict Text)
    → lookup s.server_id st.session_baseline ≡ some baseline
    → (rug_pulls w ts st s ≡ [])
      ↔ ((All (AsBefore w.json baseline) ts × NoneGone ts baseline) ⊎ Unhashable w.json ts)
unfolding changes_or_none
rug_pulls-empty w ts st s baseline known =
    let now = (w.outside s.records).now in
    let quiet = check_mid-quiet w.json now s.server_id ts st baseline known in
    let failed = check_mid-err w.json now s.server_id ts st baseline known in
    elim (Outcome-cases (check w.json now s.server_id ts true st)) [
      | inr (e, eq) ↦ (λ h. inr (failed.0 (e, eq)), λ h. rw (changes_or_none, eq))
      | inl (cs, eq) ↦
          let same : rug_pulls w ts st s ≡ map (rug_pull_entry s) cs = rw (changes_or_none, eq) in
          (
            λ h. inl (quiet.0 (eq ∙ ap (λ l. ok l) ((map-empty s cs).0 (sym same ∙ h)))),
            λ d. elim d [
              | inl q ↦ same ∙ (map-empty s cs).1 (ok_injective (sym eq ∙ quiet.1 q))
              | inr u ↦ absurd (ok_or_err eq (failed.1 u).1)
            ],
          )
    ]

later_list :
    (w : World) (result : Text) (ts : List McpTool) (st : ToolPinStore) (s : Session)
    → s.session_pinned ≡ true
    → s.pin_store ≡ some st
    → parse_tools_list w.unmarshal_tools result ≡ ok ts
    → handle_tools_list_response w result s ≡ handle_subsequent_tools_list w ts st s
unfolding handle_tools_list_response handle_tools_list
later_list w result ts st s pinned stored parsed =
    let step : handle_tools_list_response w result s
        ≡ handle_tools_list w ts s.pin_store s.session_pinned s =
      rw (handle_tools_list_response, parsed) in
    step
    ∙ (ap (λ o. handle_tools_list w ts o s.session_pinned s) stored
        ∙ ap (λ b. handle_tools_list w ts (some st) b s) pinned)

-- A later tools/list of a session with a baseline records blocking entries only, and it records
-- none exactly if all tools are as in the baseline and none is gone; or
-- if one tool cannot be hashed, which hides the changes of all others.
pub handle_tools_list_response-blocks :
    (w : World) (result : Text) (ts : List McpTool) (st : ToolPinStore) (s : Session)
    (baseline : Dict Text)
    → s.session_pinned ≡ true
    → s.pin_store ≡ some st
    → lookup s.server_id st.session_baseline ≡ some baseline
    → parse_tools_list w.unmarshal_tools result ≡ ok ts
    → (es : List DecisionEntry) × All (λ e. e.decision ≡ block) es
      × ((handle_tools_list_response w result s).decision_log ≡ (record_all w es s).decision_log)
      × ((es ≡ [])
          ↔ ((All (AsBefore w.json baseline) ts × NoneGone ts baseline) ⊎ Unhashable w.json ts))
unfolding handle_subsequent_tools_list
handle_tools_list_response-blocks w result ts st s baseline pinned stored known parsed = (
  rug_pulls w ts st s,
  map-BlocksOnly s _,
  ap (λ (x : Session). x.decision_log) (later_list w result ts st s pinned stored parsed),
  rug_pulls-empty w ts st s baseline known,
)
