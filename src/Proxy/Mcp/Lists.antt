-- ===== src/Proxy/Mcp/Lists.antt =====
-- The first tools/list response of a session: handleFirstToolsList of proxy/mcp_stdio.go.
use mathlib.Core.Path.{subst}
use skillledger.Base.{
  ℕ, [], ◌∷◌, ◌++◌, sym, ap, ◌∙◌, ◌≢◌, ◌↔◌, inl, inr, Option, none, arith, Option-cases, All,
  All-map, Text, text_eq, text_eq_iff, if◌then◌else◌, Outcome, ok, Outcome-cases, Dict, lookup, ◌≡◌,
  refl, Bool, true, false, ◌&&◌, not, some, List, map, nat_beq, length,
}
use skillledger.Proxy.Pinning.{
  McpTool, PinEntry, PinChange, Json, ToolPinStore, pin_key, hash_tool_full, load,
  set_session_baseline,
}
use skillledger.Proxy.Pinning.Check.{
  between_change, between_tool, collect, check_between_session, check,
}
use skillledger.Proxy.Pinning.Between.{Unchanged, check-quiet}
use skillledger.Proxy.Mcp.{
  World, Session, record_all, between_entry, changes_or_none, server_has_pins,
  handle_first_tools_list,
}

-- The store that the first tools/list of a session works on.
abbrev pub loaded : World → ToolPinStore → Session → ToolPinStore
loaded w store s = (load w.decode_pins s.pin_file store).1

abbrev pub first_changes : World → List McpTool → ToolPinStore → Session → List PinChange
first_changes w ts store s =
    changes_or_none (check w.json (w.outside s.records).now s.server_id ts false (loaded w store s))

not_first : (c : Bool) → (c && not true) ≡ false
not_first true = refl
not_first false = refl

-- A round that finds nothing does not show in the loop's result.
collect-skip :
    (f : McpTool → Outcome (Option PinChange)) (before after : List McpTool) (t : McpTool)
    → f t ≡ ok none
    → collect f (before ++ (t ∷ after)) ≡ collect f (before ++ after)
unfolding collect
collect-skip f [] after t h = elim (Outcome-cases (collect f after)) [
  | inl (cs, k) ↦ rw (collect, h, k)
  | inr (e, k) ↦ rw (collect, h, k)
]
collect-skip f (u ∷ before) after t h = ground (arith, collect-skip f before after t h)

collect-All :
    (P : PinChange → Type 0) (f : McpTool → Outcome (Option PinChange))
    (sound : (t : McpTool) (c : PinChange) → f t ≡ ok (some c) → P c) (ts : List McpTool)
    → All P (changes_or_none (collect f ts))
unfolding collect changes_or_none
collect-All P f sound [] = tt
collect-All P f sound (t ∷ ts) = elim (Outcome-cases (f t)) [
  | inr (e, h) ↦ rw (collect, h) tt
  | inl (c, h) ↦ elim (Outcome-cases (collect f ts)) [
    | inr (e, k) ↦ rw (collect, h, k) tt
    | inl (cs, k) ↦
        let rest = subst (λ o. All P (changes_or_none o)) k (collect-All P f sound ts) in
        elim (Option-cases c) [
          | inl gone ↦ rw (collect, h, k, gone) rest
          | inr (x, found) ↦ rw (collect, h, k, found) (sound t x (h ∙ ap ok found), rest)
        ]
  ]
]

collect-ok :
    (f : McpTool → Outcome (Option PinChange)) (ts : List McpTool)
    → All (λ t. (c : Option PinChange) × (f t ≡ ok c)) ts
    → (cs : List PinChange) × (collect f ts ≡ ok cs)
unfolding collect
collect-ok f [] h = ([], refl)
collect-ok f (t ∷ ts) ((c, here), later) =
    let (cs, rest) = collect-ok f ts later in
    (elim c [ none ↦ cs | some change ↦ change ∷ cs ], rw (collect, here, rest) refl)

-- The change is one of a tool that is pinned: from the pinned hash to another.
abbrev pub OfPinned : Text → Dict PinEntry → PinChange → Type 0
OfPinned server pins c =
    (e : PinEntry) × (lookup (pin_key server c.tool_name) pins ≡ some e)
    × (c.old_hash ≡ e.full_hash)
    × (c.new_hash ≢ e.full_hash)

abbrev pub Hashable : Json → McpTool → Type 0
Hashable j t = (h : Text) × (hash_tool_full j t ≡ ok h)

module _ (j : Json) (now : ℕ) (server : Text) (pins : Dict PinEntry) where
  between_tool-OfPinned :
      (t : McpTool) (c : PinChange)
      → between_tool j now server pins t ≡ ok (some c)
      → OfPinned server pins c
  unfolding between_tool
  between_tool-OfPinned t c h = elim (Option-cases (lookup (pin_key server t.name) pins)) [
    | inl e ↦ absurd (ground (arith, e))
    | inr (e, found) ↦ elim (Outcome-cases (hash_tool_full j t)) [
      | inl (x, eq) ↦ (e, ground arith, ground arith, ground (arith, text_eq_iff e.full_hash x))
      | inr (msg, eq) ↦ absurd (ground arith)
    ]
  ]

  between_tool-skip :
      (t : McpTool)
      → lookup (pin_key server t.name) pins ≡ none
      → between_tool j now server pins t ≡ ok none
  unfolding between_tool
  between_tool-skip t h = rw (between_tool, h)

  between_tool-ok :
      (t : McpTool)
      → Hashable j t
      → (c : Option PinChange) × (between_tool j now server pins t ≡ ok c)
  unfolding between_tool
  between_tool-ok t (h, eq) = elim (Option-cases (lookup (pin_key server t.name) pins)) [
    | inl e ↦ (none, ground arith)
    | inr (e, found) ↦ (
      (if text_eq e.full_hash h then none else some (between_change j now server t e h)),
      rw (between_tool, found, eq) refl,
    )
  ]

module _ (w : World) (store : ToolPinStore) (s : Session) where
  first_changes-skip :
      (before after : List McpTool) (t : McpTool)
      → lookup (pin_key s.server_id t.name) (loaded w store s).pins.pins ≡ none
      → first_changes w (before ++ (t ∷ after)) store s ≡ first_changes w (before ++ after) store s
  unfolding check check_between_session
  first_changes-skip before after t h =
      ap changes_or_none
        (collect-skip _ before after t (between_tool-skip w.json _ s.server_id _ t h))

  first_changes-OfPinned :
      (ts : List McpTool)
      → All (OfPinned s.server_id (loaded w store s).pins.pins) (first_changes w ts store s)
  unfolding check check_between_session
  first_changes-OfPinned ts =
      collect-All _ _ (between_tool-OfPinned w.json _ s.server_id (loaded w store s).pins.pins) ts

  first_changes-quiet :
      (ts : List McpTool)
      → All (Hashable w.json) ts
      → (first_changes w ts store s ≡ [])
        ↔ All (Unchanged w.json s.server_id (loaded w store s).pins.pins) ts
  unfolding check check_between_session changes_or_none
  first_changes-quiet ts hashable =
      let now = (w.outside s.records).now in
      let f = between_tool w.json now s.server_id (loaded w store s).pins.pins in
      let (cs, eq) = collect-ok f ts (
        All-map (between_tool-ok w.json now s.server_id (loaded w store s).pins.pins) ts
          hashable) in
      let quiet = check-quiet w.json now s.server_id ts (loaded w store s) in
      let same : first_changes w ts store s ≡ cs = ap changes_or_none eq in
      (
        λ none_. quiet.0 (eq ∙ ap ok (sym same ∙ none_)),
        λ unchanged. ap changes_or_none (quiet.1 unchanged),
      )

-- Once a server has a pin, the first tools/list of a session changes neither the pins nor their file,
-- and what it records are changes of pinned tools, each from the pinned hash to another; if all tools
-- can be hashed, there is none exactly if each tool is not pinned or has its pinned hash. A tool that
-- is not pinned, wherever it stands in the list, is neither pinned nor reported: log and violation
-- file are what they are without it.
pub handle_first_tools_list-pinned :
    (w : World) (ts : List McpTool) (store : ToolPinStore) (s : Session)
    → server_has_pins s.server_id (loaded w store s) ≡ true
    → let s' = handle_first_tools_list w ts store s in
      let pins = (loaded w store s).pins in
      (s'.pin_file ≡ s.pin_file)
      × ((st : ToolPinStore) × (s'.pin_store ≡ some st) × (st.pins ≡ pins))
      × ((cs : List PinChange) × All (OfPinned s.server_id pins.pins) cs
          × (s'.decision_log ≡ (record_all w (map (between_entry s) cs) s).decision_log)
          × (All (Hashable w.json) ts
              → (cs ≡ []) ↔ All (Unchanged w.json s.server_id pins.pins) ts))
      × ((before after : List McpTool) (t : McpTool)
          → ts ≡ before ++ (t ∷ after)
          → lookup (pin_key s.server_id t.name) pins.pins ≡ none
          → let without = handle_first_tools_list w (before ++ after) store s in
            (s'.decision_log ≡ without.decision_log) × (s'.violations ≡ without.violations))
unfolding handle_first_tools_list set_session_baseline
handle_first_tools_list-pinned w ts store s has =
    let quiet_or_not = not_first (nat_beq (length (first_changes w ts store s)) 0) in
    (
      rw (has, quiet_or_not) refl,
      (
        set_session_baseline w.json s.server_id ts (loaded w store s),
        rw (has, quiet_or_not) refl,
        refl,
      ),
      (
        first_changes w ts store s,
        first_changes-OfPinned w store s ts,
        refl,
        first_changes-quiet w store s ts,
      ),
      λ before after t split unpinned.
          let same =
            ap (λ us. first_changes w us store s) split
            ∙ first_changes-skip w store s before after t unpinned in
          (
            ap (λ cs. (record_all w (map (between_entry s) cs) s).decision_log) same,
            ap (λ cs. (record_all w (map (between_entry s) cs) s).violations) same,
          ),
    )
