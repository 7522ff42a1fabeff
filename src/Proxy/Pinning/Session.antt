-- ===== src/Proxy/Pinning/Session.antt =====
-- SetSessionBaseline and the check within a session of proxy/pinning.go.
use skillledger.Base.{
  ℕ, ◌≡◌, refl, ◌≢◌, ◌↔◌, inl, inr, true, none, some, List, [], ◌∷◌, ◌++◌, arith, Bool-cases,
  Option-cases, All, All-map, Text, text_eq, text_eq_iff, ok, Outcome-cases, Dict, lookup, put,
  lookup-put,
}
use skillledger.Proxy.Pinning.{
  McpTool, PinEntry, PinChange, Json, ToolPinStore, hash_tool_full, baseline_with, baseline_from,
  set_session_baseline,
}
use skillledger.Proxy.Pinning.Check.{
  mid_tool, collect, is_current, removed, check_mid_session, check,
}
use skillledger.Proxy.Pinning.Between.{collect-quiet, DistinctNames}

-- The tool has the hash that the baseline has for its name.
abbrev pub AsBefore : Json → Dict Text → McpTool → Type 0
AsBefore j baseline t = (h : Text) × (hash_tool_full j t ≡ ok h) × (lookup t.name baseline ≡ some h)

-- Every tool of the baseline is still offered.
abbrev pub NoneGone : List McpTool → Dict Text → Type 0
NoneGone ts = All (λ p. is_current p.0 ts ≡ true)

module _ (j : Json) (now : ℕ) (server : Text) (pins : Dict PinEntry) where
  mid_tool-quiet :
      (baseline : Dict Text) (t : McpTool)
      → (mid_tool j now server pins baseline t ≡ ok none) ↔ AsBefore j baseline t
  unfolding mid_tool
  mid_tool-quiet baseline t = elim (Outcome-cases (hash_tool_full j t)) [
    | inr (msg, eq) ↦ ground arith
    | inl (h, eq) ↦ elim (Option-cases (lookup t.name baseline)) [
      | inl e ↦ ground arith
      | inr (old, e) ↦ ground (arith, text_eq_iff old h)
    ]
  ]

  removed-quiet :
      (ts : List McpTool) (baseline : Dict Text)
      → (removed now server pins ts baseline ≡ []) ↔ NoneGone ts baseline
  unfolding removed
  removed-quiet ts [] = (λ _. tt, λ _. refl)
  removed-quiet ts ((name, old) ∷ baseline) = ground (arith, removed-quiet ts baseline)

append-empty : (xs ys : List PinChange) → (xs ++ ys ≡ []) ↔ ((xs ≡ []) × (ys ≡ []))
append-empty [] ys = ground arith
append-empty (x ∷ xs) ys = ground arith

check_mid-parts :
    (j : Json) (now : ℕ) (server : Text) (ts : List McpTool) (s : ToolPinStore)
    (baseline : Dict Text)
    → lookup server s.session_baseline ≡ some baseline
    → (check j now server ts true s ≡ ok []) ↔ (
        (collect (mid_tool j now server s.pins.pins baseline) ts ≡ ok [])
        × (removed now server s.pins.pins ts baseline ≡ []))
unfolding check check_mid_session
check_mid-parts j now server ts s baseline known =
    elim (Outcome-cases (collect (mid_tool j now server s.pins.pins baseline) ts)) [
      | inr (msg, e) ↦ ground arith
      | inl (cs, e) ↦ ground (arith, append-empty cs (removed now server s.pins.pins ts baseline))
    ]

-- A check within a session reports nothing exactly if every tool has the hash of the session's
-- baseline and no tool of the baseline is gone: added, changed and removed tools are all reported.
pub check_mid-quiet :
    (j : Json) (now : ℕ) (server : Text) (ts : List McpTool) (s : ToolPinStore)
    (baseline : Dict Text)
    → lookup server s.session_baseline ≡ some baseline
    → (check j now server ts true s ≡ ok []) ↔ (All (AsBefore j baseline) ts × NoneGone ts baseline)
check_mid-quiet j now server ts s baseline known =
    let same = mid_tool-quiet j now server s.pins.pins baseline in
    let quiet = collect-quiet (mid_tool j now server s.pins.pins baseline) ts in
    let gone = removed-quiet j now server s.pins.pins ts baseline in
    let parts = check_mid-parts j now server ts s baseline known in
    (
      λ h. (All-map (λ t. (same t).0) ts (quiet.0 (parts.0 h).0), gone.0 (parts.0 h).1),
      λ (a, n). parts.1 (quiet.1 (All-map (λ t. (same t).1) ts a), gone.1 n),
    )

is_current_self : (t : McpTool) (ts : List McpTool) → is_current t.name (t ∷ ts) ≡ true
unfolding is_current
is_current_self t ts = ground (arith, text_eq_iff t.name t.name)

module _ (j : Json) where
  -- Hashing does not fail.
  abbrev pub Hashed : List McpTool → Type 0
  Hashed = All (λ t. (h : Text) × (hash_tool_full j t ≡ ok h))

  baseline_from-other :
      (ts : List McpTool) (name : Text) (b : Dict Text)
      → All (λ t. name ≢ t.name) ts
      → lookup name (baseline_from j ts b) ≡ lookup name b
  unfolding baseline_from
  baseline_from-other [] name b ne = refl
  baseline_from-other (t ∷ ts) name b ne = elim (Outcome-cases (hash_tool_full j t)) [
    | inl (h, e) ↦ ground (
      arith,
      baseline_from-other ts name (put t.name h b) ne.1,
      lookup-put t.name name h b,
      text_eq_iff t.name name,
      ne.0,
    )
    | inr (msg, e) ↦ ground (arith, baseline_from-other ts name b ne.1)
  ]

  baseline_from-AsBefore :
      (ts : List McpTool) (b : Dict Text)
      → DistinctNames ts
      → Hashed ts
      → All (AsBefore j (baseline_from j ts b)) ts
  unfolding baseline_from
  baseline_from-AsBefore [] b d hs = tt
  baseline_from-AsBefore (t ∷ ts) b d ((h, e), hs) = (
    (
      h,
      e,
      ground (
        arith,
        baseline_from-other ts t.name (put t.name h b) d.0,
        lookup-put t.name t.name h b,
        text_eq_iff t.name t.name,
      ),
    ),
    baseline_from-AsBefore ts (baseline_with j t b) d.1 hs,
  )

  put-All :
      (P : Text × Text → Type 0) (k v : Text) (b : Dict Text)
      → P (k, v)
      → All P b
      → All P (put k v b)
  unfolding put
  put-All P k v [] p h = (p, tt)
  put-All P k v ((i, w) ∷ b) p h = elim (Bool-cases (text_eq i k)) [
    | inl e ↦ rw (put, e) (p, h.1)
    | inr e ↦ rw (put, e) (h.0, put-All P k v b p h.1)
  ]

  baseline_with-All :
      (P : Text × Text → Type 0) (t : McpTool) (b : Dict Text)
      → ((h : Text) → P (t.name, h))
      → All P b
      → All P (baseline_with j t b)
  baseline_with-All P t b p h = elim (Outcome-cases (hash_tool_full j t)) [
    | inl (x, e) ↦ rw (All, e) (put-All P t.name x b (p x) h)
    | inr (msg, e) ↦ rw (All, e) h
  ]

  baseline_from-All :
      (P : Text × Text → Type 0) (ts : List McpTool) (b : Dict Text)
      → All (λ t. (h : Text) → P (t.name, h)) ts
      → All P b
      → All P (baseline_from j ts b)
  unfolding baseline_from
  baseline_from-All P [] b ps h = h
  baseline_from-All P (t ∷ ts) b ps h =
      baseline_from-All P ts (baseline_with j t b) ps.1 (baseline_with-All P t b ps.0 h)

is_current_later :
    (name : Text) (t : McpTool) (ts : List McpTool)
    → is_current name ts ≡ true
    → is_current name (t ∷ ts) ≡ true
unfolding is_current
is_current_later name t ts h = ground arith

All-current : (ts : List McpTool) → All (λ t. is_current t.name ts ≡ true) ts
All-current [] = tt
All-current (t ∷ ts) =
    (is_current_self t ts, All-map (λ u. is_current_later u.name t ts) ts (All-current ts))

-- After SetSessionBaseline with tools of distinct names that can be hashed, a later check of the
-- same tools within the session reports nothing.
pub set_session_baseline-quiet :
    (j : Json) (later : ℕ) (server : Text) (ts : List McpTool) (s : ToolPinStore)
    → DistinctNames ts
    → Hashed j ts
    → check j later server ts true (set_session_baseline j server ts s) ≡ ok []
unfolding set_session_baseline
set_session_baseline-quiet j later server ts s d hashed =
    (check_mid-quiet j later server ts (set_session_baseline j server ts s) (baseline_from j ts [])
        (ground (
          arith,
          lookup-put server server (baseline_from j ts []) s.session_baseline,
          text_eq_iff server server,
        ))).1
      (
        baseline_from-AsBefore j ts [] d hashed,
        baseline_from-All j (λ p. is_current p.0 ts ≡ true) ts []
            (All-map (λ t e h. e) ts (All-current ts)) tt,
      )
