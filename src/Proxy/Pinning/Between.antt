-- ===== src/Proxy/Pinning/Between.antt =====
-- Pin, PinAll and the check between sessions of proxy/pinning.go.
use skillledger.Base.{
  ℕ, ◌≡◌, refl, ◌≢◌, ◌↔◌, ◌⊎◌, inl, inr, false, Option, none, some, List, [], ◌∷◌, ◌++◌, arith,
  Option-cases, All, All-map, Text, codes, text_eq_iff, Outcome, ok, Outcome-cases, >>=-ok, Dict,
  lookup, put, lookup-put,
}
use mathlib.Core.Path.{subst}
use skillledger.Proxy.Pinning.{
  McpTool, PinEntry, PinChange, Json, ToolPinStore, pin_key, hash_tool_full, pin, pin_all, entry_of,
}
use skillledger.Proxy.Pinning.Check.{between_tool, collect, check_between_session, check}

pub collect-quiet :
    (f : McpTool → Outcome (Option PinChange)) (ts : List McpTool)
    → (collect f ts ≡ ok []) ↔ All (λ t. f t ≡ ok none) ts
unfolding collect
collect-quiet f [] = (λ _. tt, λ _. refl)
collect-quiet f (t ∷ ts) = ground (arith, collect-quiet f ts)

-- The tool is not pinned, or its full hash is the pinned one.
abbrev pub Unchanged : Json → Text → Dict PinEntry → McpTool → Type 0
Unchanged j server pins t =
    (lookup (pin_key server t.name) pins ≡ none)
    ⊎ ((e : PinEntry) × (lookup (pin_key server t.name) pins ≡ some e)
        × (hash_tool_full j t ≡ ok e.full_hash))

module _ (j : Json) (now : ℕ) (server : Text) (pins : Dict PinEntry) where
  between_tool-quiet :
      (t : McpTool) → (between_tool j now server pins t ≡ ok none) ↔ Unchanged j server pins t
  unfolding between_tool
  between_tool-quiet t = elim (Option-cases (lookup (pin_key server t.name) pins)) [
    | inl e ↦ (λ _. inl e, λ _. rw (between_tool, e))
    | inr (e, found) ↦ elim (Outcome-cases (hash_tool_full j t)) [
      | inl (h, eq) ↦ ground (arith, text_eq_iff e.full_hash h)
      | inr (msg, eq) ↦ ground arith
    ]
  ]

append_cancel : (s a b : Text) → s ++ a ≡ s ++ b → a ≡ b
append_cancel [] a b h = h
append_cancel (c ∷ s) a b h = append_cancel s a b cc

pin_key_injective : (server a b : Text) → pin_key server a ≡ pin_key server b → a ≡ b
unfolding pin_key
pin_key_injective server a b h = append_cancel (codes "::") a b (append_cancel server _ _ h)

-- No two tools have the same name.
abbrev pub DistinctNames : List McpTool → Type 0
DistinctNames [] = Unit
DistinctNames (t ∷ ts) = All (λ u. t.name ≢ u.name) ts × DistinctNames ts

ok-injective : {a b : ToolPinStore} → ok a ≡ ok b → a ≡ b
ok-injective h = cc

-- The pin of this tool is there, with the hash of its definition.
abbrev pub Pinned : Json → Text → McpTool → ToolPinStore → Type 0
Pinned j server t s =
    (e : PinEntry) × (lookup (pin_key server t.name) s.pins.pins ≡ some e)
    × (hash_tool_full j t ≡ ok e.full_hash)

module _ (j : Json) (now : ℕ) (server : Text) where
  pin-set :
      (t : McpTool) (s s' : ToolPinStore)
      → pin j now server t s ≡ ok s'
      → (h : Text) × (hash_tool_full j t ≡ ok h)
        × (s'.pins.pins ≡ put (pin_key server t.name) (entry_of j t h now now) s.pins.pins)
  unfolding pin
  pin-set t s s' h = elim (Outcome-cases (hash_tool_full j t)) [
    | inl (x, eq) ↦ (x, eq, ground arith)
    | inr (msg, eq) ↦ absurd (ground arith)
  ]

  pin-Pinned :
      (t : McpTool) (s s' : ToolPinStore) → pin j now server t s ≡ ok s' → Pinned j server t s'
  unfolding entry_of
  pin-Pinned t s s' h =
      let (x, hashed, eq) = pin-set t s s' h in
      let key = pin_key server t.name in
      (
        entry_of j t x now now,
        ground (
          arith,
          eq,
          lookup-put key key (entry_of j t x now now) s.pins.pins,
          text_eq_iff key key,
        ),
        hashed,
      )

  pin-other :
      (t u : McpTool) (s s' : ToolPinStore)
      → pin j now server t s ≡ ok s'
      → u.name ≢ t.name
      → Pinned j server u s
      → Pinned j server u s'
  pin-other t u s s' h ne (e, found, hashed) =
      let (x, eq_hash, eq) = pin-set t s s' h in
      (
        e,
        ground (
          arith,
          eq,
          lookup-put (pin_key server t.name) (pin_key server u.name) (entry_of j t x now now)
              s.pins.pins,
          text_eq_iff (pin_key server t.name) (pin_key server u.name),
          pin_key_injective server t.name u.name,
        ),
        hashed,
      )

  pin_all-keeps :
      (ts : List McpTool) (u : McpTool) (s s' : ToolPinStore)
      → pin_all j now server ts s ≡ ok s'
      → All (λ t. u.name ≢ t.name) ts
      → Pinned j server u s
      → Pinned j server u s'
  unfolding pin_all
  pin_all-keeps [] u s s' h ne p = subst (Pinned j server u) (ok-injective h) p
  pin_all-keeps (t ∷ ts) u s s' h ne p =
      let (s1, first, rest) = >>=-ok (pin j now server t s) _ h in
      pin_all-keeps ts u s1 s' rest ne.1 (pin-other t u s s1 first ne.0 p)

  pub pin_all-Pinned :
      (ts : List McpTool) (s s' : ToolPinStore)
      → pin_all j now server ts s ≡ ok s'
      → DistinctNames ts
      → All (λ t. Pinned j server t s') ts
  unfolding pin_all
  pin_all-Pinned [] s s' h d = tt
  pin_all-Pinned (t ∷ ts) s s' h d =
      let (s1, first, rest) = >>=-ok (pin j now server t s) _ h in
      (
        pin_all-keeps ts t s1 s' rest d.0 (pin-Pinned t s s1 first),
        pin_all-Pinned ts s1 s' rest d.1,
      )

-- A check between sessions reports nothing exactly if every tool is either not pinned or has the
-- full hash that is pinned for it.
pub check-quiet :
    (j : Json) (now : ℕ) (server : Text) (ts : List McpTool) (s : ToolPinStore)
    → (check j now server ts false s ≡ ok []) ↔ All (Unchanged j server s.pins.pins) ts
unfolding check check_between_session
check-quiet j now server ts s =
    let quiet = collect-quiet (between_tool j now server s.pins.pins) ts in
    (
      λ h. All-map (λ t. (between_tool-quiet j now server s.pins.pins t).0) ts (quiet.0 h),
      λ a. quiet.1 (All-map (λ t. (between_tool-quiet j now server s.pins.pins t).1) ts a),
    )

-- After PinAll of tools with distinct names, on any store, a later check of the same tools reports
-- nothing.
pub pin_all-quiet :
    (j : Json) (now later : ℕ) (server : Text) (ts : List McpTool) (s s' : ToolPinStore)
    → DistinctNames ts
    → pin_all j now server ts s ≡ ok s'
    → check j later server ts false s' ≡ ok []
pin_all-quiet j now later server ts s s' d h =
    (check-quiet j later server ts s').1
      (All-map (λ t p. inr p) ts (pin_all-Pinned j now server ts s s' h d))
