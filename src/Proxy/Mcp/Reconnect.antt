-- ===== src/Proxy/Mcp/Reconnect.antt =====
-- A first connection to a server and the next one: handleFirstToolsList of proxy/mcp_stdio.go.
use skillledger.Base.{
  Bool-cases, text_eq, text_eq→≡, inr, true, ◌++◌, has_prefix, append_assoc, Dict, codes, arith, ℕ,
  ◌≡◌, refl, sym, ap, ◌∙◌, inl, false, none, some, List, [], ◌∷◌, map, All, Text, ok, lookup, keys,
}
use mathlib.Core.Path.{subst}
use skillledger.Proxy.Pinning.{
  McpTool, ToolPinStore, StoredPins, PinEntry, Json, pin_key, load, save, pin_all, pin_keys,
}
use skillledger.Proxy.Pinning.Check.{check, collect, between_tool}
use skillledger.Proxy.Pinning.Between.{
  Unchanged, DistinctNames, check-quiet, pin_all-quiet, Pinned, pin_all-Pinned,
}
use skillledger.Proxy.Mcp.{
  World, Session, record_all, between_entry, changes_or_none, server_has_pins, any_prefix,
  saved_file, auto_pin, handle_first_tools_list,
}
use skillledger.Proxy.Mcp.Lists.{loaded, first_changes, handle_first_tools_list-pinned}

All-Unchanged :
    (w : World) (server : Text) (ts : List McpTool) → All (Unchanged w.json server []) ts
unfolding lookup
All-Unchanged w server [] = tt
All-Unchanged w server (t ∷ ts) = (inl refl, All-Unchanged w server ts)

module _ (w : World) (ts : List McpTool) (store : ToolPinStore) (s : Session) where
  first_log :
      first_changes w ts store s ≡ []
      → (handle_first_tools_list w ts store s).decision_log ≡ s.decision_log
  unfolding handle_first_tools_list record_all
  first_log quiet = ap (λ cs. (record_all w (map (between_entry s) cs) s).decision_log) quiet

  loaded_empty : s.pin_file ≡ none → (loaded w store s).pins.pins ≡ []
  unfolding load
  loaded_empty e = rw (load, e)

  unpinned-server_has_pins :
      (loaded w store s).pins.pins ≡ [] → server_has_pins s.server_id (loaded w store s) ≡ false
  unfolding server_has_pins any_prefix pin_keys keys
  unpinned-server_has_pins e = rw (server_has_pins, pin_keys, e)

  first_file :
      first_changes w ts store s ≡ []
      → server_has_pins s.server_id (loaded w store s) ≡ false
      → (handle_first_tools_list w ts store s).pin_file
        ≡ (auto_pin w (w.outside s.records).now s.server_id ts (loaded w store s, s.pin_file)).1
  unfolding handle_first_tools_list
  first_file quiet unpinned = rw (handle_first_tools_list, quiet, unpinned)

  auto_pin-file :
      (st pinned : ToolPinStore) (file file' : StoredPins) (now : ℕ)
      → pin_all w.json now s.server_id ts st ≡ ok pinned
      → save w.make_directory w.encode_pins w.write_pins pinned file ≡ (ok tt, file')
      → (auto_pin w now s.server_id ts (st, file)).1 ≡ file'
  unfolding auto_pin saved_file
  auto_pin-file st pinned file file' now h k = rw (auto_pin, h, saved_file) (ap (λ p. p.1) k)

  unpinned-quiet : (loaded w store s).pins.pins ≡ [] → first_changes w ts store s ≡ []
  unfolding changes_or_none
  unpinned-quiet e =
      let now = (w.outside s.records).now in
      ap changes_or_none (
        (check-quiet w.json now s.server_id ts (loaded w store s)).1 (
          subst (λ pins. All (Unchanged w.json s.server_id pins) ts) (sym e)
            (All-Unchanged w s.server_id ts)))

load_saved :
    (w : World) (store pinned : ToolPinStore) (bytes : Text) (version : ℕ)
    → w.decode_pins bytes ≡ ok (version, some pinned.pins.pins)
    → (load w.decode_pins (some (ok bytes)) store).1.pins.pins ≡ pinned.pins.pins
unfolding load
load_saved w store pinned bytes version decoded = rw (load, decoded)

loaded_saved :
    (w : World) (store pinned : ToolPinStore) (s : Session) (bytes : Text) (version : ℕ)
    → s.pin_file ≡ some (ok bytes)
    → w.decode_pins bytes ≡ ok (version, some pinned.pins.pins)
    → (loaded w store s).pins.pins ≡ pinned.pins.pins
loaded_saved w store pinned s bytes version e decoded =
    ap (λ file. (load w.decode_pins file store).1.pins.pins) e
    ∙ load_saved w store pinned bytes version decoded

check-pins :
    (w : World) (now : ℕ) (server : Text) (ts : List McpTool) (a b : ToolPinStore)
    → a.pins.pins ≡ b.pins.pins
    → check w.json now server ts false a ≡ check w.json now server ts false b
unfolding check
check-pins w now server ts a b e = ap (λ pins. collect (between_tool w.json now server pins) ts) e

has_prefix-append : (p x : Text) → has_prefix p (p ++ x) ≡ true
unfolding has_prefix
has_prefix-append [] x = refl
has_prefix-append (c ∷ p) x = ground (arith, has_prefix-append p x)

pin_key-has_prefix :
    (server name : Text) → has_prefix (server ++ codes "::") (pin_key server name) ≡ true
unfolding pin_key
pin_key-has_prefix server name =
    subst (λ key. has_prefix (server ++ codes "::") key ≡ true)
      (append_assoc server (codes "::") name) (has_prefix-append (server ++ codes "::") name)

-- A server with a pin has pins.
lookup-any_prefix :
    (server name : Text) (pins : Dict PinEntry) (e : PinEntry)
    → lookup (pin_key server name) pins ≡ some e
    → any_prefix (server ++ codes "::") (keys pins) ≡ true
unfolding lookup keys any_prefix
lookup-any_prefix server name [] e h = absurd (ground arith)
lookup-any_prefix server name ((key, v) ∷ pins) e h =
    elim (Bool-cases (text_eq key (pin_key server name))) [
      | inl same ↦
          let here : has_prefix (server ++ codes "::") key ≡ true =
            subst (λ k. has_prefix (server ++ codes "::") k ≡ true)
              (sym (text_eq→≡ key (pin_key server name) same)) (pin_key-has_prefix server name) in
          ground (arith, here)
      | inr other ↦
          let there : lookup (pin_key server name) pins ≡ some e = ground (arith, h, other) in
          ground (arith, lookup-any_prefix server name pins e there)
    ]

Pinned-server_has_pins :
    (j : Json) (server : Text) (t : McpTool) (st pinned : ToolPinStore)
    → st.pins.pins ≡ pinned.pins.pins
    → Pinned j server t pinned
    → server_has_pins server st ≡ true
unfolding server_has_pins pin_keys
Pinned-server_has_pins j server t st pinned same (e, found, hashed) =
    lookup-any_prefix server t.name st.pins.pins e
      (ap (lookup (pin_key server t.name)) same ∙ found)

-- Suppose there is no pin file at the first connection to a server, its tools have distinct names and
-- can be hashed, and the pins can be saved. Then the first tools/list leaves the saved pins as the
-- file and records nothing; and if the next session reads this file back and sees the same tools from
-- the same server, its first tools/list records nothing either and, if there is a tool, leaves the
-- file as it is.
pub reconnect-quiet :
    (w : World) (ts : List McpTool) (store store' pinned : ToolPinStore) (s s' : Session)
    (bytes : Text) (version : ℕ)
    → DistinctNames ts
    → s.pin_file ≡ none
    → pin_all w.json (w.outside s.records).now s.server_id ts (loaded w store s) ≡ ok pinned
    → save w.make_directory w.encode_pins w.write_pins pinned none ≡ (ok tt, some (ok bytes))
    → w.decode_pins bytes ≡ ok (version, some pinned.pins.pins)
    → s'.server_id ≡ s.server_id
    → s'.pin_file ≡ (handle_first_tools_list w ts store s).pin_file
    → ((handle_first_tools_list w ts store s).pin_file ≡ some (ok bytes))
      × ((handle_first_tools_list w ts store s).decision_log ≡ s.decision_log)
      × ((handle_first_tools_list w ts store' s').decision_log ≡ s'.decision_log)
      × ((t : McpTool) (us : List McpTool)
          → ts ≡ t ∷ us
          → (handle_first_tools_list w ts store' s').pin_file ≡ s'.pin_file)
unfolding changes_or_none
reconnect-quiet w ts store store' pinned s s' bytes version distinct fresh pin_ok saved decoded same
      kept =
    let empty = loaded_empty w ts store s fresh in
    let quiet = unpinned-quiet w ts store s empty in
    let written =
      first_file w ts store s quiet (unpinned-server_has_pins w ts store s empty)
      ∙ auto_pin-file w ts store s (loaded w store s) pinned s.pin_file (some (ok bytes)) _ pin_ok
          (ap (save w.make_directory w.encode_pins w.write_pins pinned) fresh ∙ saved) in
    let now' = (w.outside s'.records).now in
    let reread = loaded_saved w store' pinned s' bytes version (kept ∙ written) decoded in
    let unchanged =
      check-pins w now' s'.server_id ts (loaded w store' s') pinned reread
      ∙ (ap (λ server. check w.json now' server ts false pinned) same
          ∙ pin_all-quiet w.json _ now' s.server_id ts (loaded w store s) pinned distinct pin_ok) in
    let pins = pin_all-Pinned w.json _ s.server_id ts (loaded w store s) pinned pin_ok distinct in
    (
      written,
      first_log w ts store s quiet,
      first_log w ts store' s' (ap changes_or_none unchanged),
      λ t us first.
          let has =
            Pinned-server_has_pins w.json s.server_id t (loaded w store' s') pinned reread
              (subst (All (λ u. Pinned w.json s.server_id u pinned)) first pins).0 in
          (handle_first_tools_list-pinned w ts store' s'
            (ap (λ server. server_has_pins server (loaded w store' s')) same ∙ has)).0,
    )
