-- ===== src/Proxy/Profiler/Export.antt =====
-- Export of proxy/profiler.go after a run of observed actions.
use skillledger.Base.{
  ℕ, ◌+◌, ◌≡◌, refl, sym, ap, ◌∙◌, inl, inr, Bool, true, false, ◌&&◌, Option, none, some, List, [],
  ◌∷◌, arith, if◌then◌else◌, Bool-cases, Option-cases, Text, codes, text_eq, text_eq→≡, Outcome, ok,
  sort_strings, lookup, put, lookup-put,
}
use mathlib.Core.Path.{subst}
use skillledger.Manifest.{Manifest}
use skillledger.Proxy.Capability.{RuntimeAction}
use skillledger.Proxy.Profiler.{
  SkillProfile, Profiler, insert_capped, normalize_destination, observe_action, new_profile,
  observe, profile_or_new, new_profiler, export, draft,
}
use skillledger.Proxy.Profiler.Observed.{insert_all}
use skillledger.Proxy.Profiler.Drafts.{Drafted, insert_all-Drafted}

abbrev is_http : RuntimeAction → Bool
is_http a = text_eq a.action_type (codes "http_request")

abbrev is_tool_call : RuntimeAction → Bool
is_tool_call a = text_eq a.action_type (codes "mcp_tool_call")

not_both : (a : RuntimeAction) → is_http a ≡ true → is_tool_call a ≡ false
unfolding text_eq
not_both a h = rw (text_eq→≡ a.action_type (codes "http_request") h) refl

module _ (url_host : Text → Outcome Text) where
  observe_action-tools :
      (a : RuntimeAction) (p : SkillProfile)
      → (observe_action url_host a p).tools
        ≡ (if is_tool_call a then insert_capped a.tool_name p.tools else p.tools)
  unfolding observe_action
  observe_action-tools a p = ground (arith, not_both a)

  observe_action-destinations :
      (a : RuntimeAction) (p : SkillProfile)
      → (observe_action url_host a p).destinations ≡ (
          if is_http a
          then insert_capped (normalize_destination url_host a.destination) p.destinations
          else p.destinations)
  unfolding observe_action
  observe_action-destinations a p = ground arith

-- What the picked actions of a skill name, in order.
unfoldable pub picked :
    (RuntimeAction → Bool) → (RuntimeAction → Text) → Text → List RuntimeAction → List Text
picked picks name id [] = []
picked picks name id (a ∷ rs) =
    let rest = picked picks name id rs in
    if text_eq a.skill_id id && picks a then name a ∷ rest else rest

-- The names of the tools that the skill called.
abbrev pub called_tools : Text → List RuntimeAction → List Text
called_tools = picked is_tool_call (λ a. a.tool_name)

-- The hosts that the skill sent requests to.
abbrev pub visited_hosts : (Text → Outcome Text) → Text → List RuntimeAction → List Text
visited_hosts url_host = picked is_http (λ a. normalize_destination url_host a.destination)

-- A run of actions, each at its time.
unfoldable pub observe_all :
    (Text → Outcome Text) → List RuntimeAction → (ℕ → ℕ) → ℕ → Profiler → Profiler
unfolding observe
observe_all url_host [] clock n p = p
observe_all url_host (a ∷ rs) clock n p =
    observe_all url_host rs clock (n + 1) (observe url_host (clock n) a p)

abbrev profile_of : Text → Profiler → SkillProfile
profile_of id p = profile_or_new 0 (lookup id p)

put_same :
    (k id : Text) (v : SkillProfile) (p : Profiler)
    → text_eq k id ≡ true
    → profile_of id (put k v p) ≡ v
unfolding profile_or_new
put_same k id v p e = rw (lookup-put k id v p, e)

put_other :
    (k id : Text) (v : SkillProfile) (p : Profiler)
    → text_eq k id ≡ false
    → profile_of id (put k v p) ≡ profile_of id p
unfolding profile_or_new
put_other k id v p e = rw (lookup-put k id v p, e)

insert_if :
    (b : Bool) (x : Text) (xs set_ : List Text)
    → insert_all xs (if b then insert_capped x set_ else set_)
      ≡ insert_all (if b then x ∷ xs else xs) set_
unfolding insert_all
insert_if true x xs set_ = refl
insert_if false x xs set_ = refl

-- For one of the sets of a profile: which actions add to it, and what.
module _ (url_host : Text → Outcome Text) (field : SkillProfile → List Text)
    (picks : RuntimeAction → Bool) (name : RuntimeAction → Text)
    (step : (a : RuntimeAction) (p : SkillProfile)
      → field (observe_action url_host a p)
        ≡ (if picks a then insert_capped (name a) (field p) else field p))
    (uncounted : (p : SkillProfile) (n : ℕ) → field (record p { action_count = n }) ≡ field p)
    (starts : (now now' : ℕ) → field (new_profile now) ≡ field (new_profile now')) where
  any_start :
      (now : ℕ) (o : Option SkillProfile)
      → field (profile_or_new now o) ≡ field (profile_or_new 0 o)
  unfolding profile_or_new
  any_start now none = starts now 0
  any_start now (some p) = refl

  observe-field :
      (now : ℕ) (id : Text) (a : RuntimeAction) (p : Profiler)
      → field (profile_of id (observe url_host now a p)) ≡ (
          if text_eq a.skill_id id && picks a
          then insert_capped (name a) (field (profile_of id p))
          else field (profile_of id p))
  unfolding observe
  observe-field now id a p = elim (Bool-cases (text_eq a.skill_id id)) [
    | inr e ↦ rw (e) (ap field (put_other a.skill_id id _ p e))
    | inl e ↦
        let same : field (profile_or_new now (lookup a.skill_id p)) ≡ field (profile_of id p) =
          any_start now (lookup a.skill_id p)
          ∙ ap (λ k. field (profile_of k p)) (text_eq→≡ a.skill_id id e) in
        rw (e) (
          ap field (put_same a.skill_id id _ p e)
          ∙ (uncounted _ _
              ∙ (step a _
                  ∙ ap (λ set_. if picks a then insert_capped (name a) set_ else set_) same)))
  ]

  observe_all-field :
      (rs : List RuntimeAction) (clock : ℕ → ℕ) (n : ℕ) (id : Text) (p : Profiler)
      → field (profile_of id (observe_all url_host rs clock n p))
        ≡ insert_all (picked picks name id rs) (field (profile_of id p))
  unfolding observe_all picked insert_all
  observe_all-field [] clock n id p = refl
  observe_all-field (a ∷ rs) clock n id p =
      observe_all-field rs clock (n + 1) id (observe url_host (clock n) a p)
      ∙ (ap (insert_all (picked picks name id rs)) (observe-field (clock n) id a p)
          ∙ insert_if (text_eq a.skill_id id && picks a) (name a) _ _)

observed_fields :
    (url_host : Text → Outcome Text) (rs : List RuntimeAction) (clock : ℕ → ℕ) (id : Text)
    → let p = profile_of id (observe_all url_host rs clock 0 new_profiler) in
      (p.tools ≡ insert_all (called_tools id rs) [])
      × (p.destinations ≡ insert_all (visited_hosts url_host id rs) [])
unfolding profile_or_new lookup
observed_fields url_host rs clock id = (
  observe_all-field url_host (λ q. q.tools) is_tool_call (λ a. a.tool_name)
      (observe_action-tools url_host) (λ q n. refl) (λ now now'. refl) rs clock 0 id [],
  observe_all-field url_host (λ q. q.destinations) is_http
      (λ a. normalize_destination url_host a.destination) (observe_action-destinations url_host)
      (λ q n. refl) (λ now now'. refl) rs clock 0 id [],
)

ok-injective : {a b : Manifest} → ok a ≡ ok b → a ≡ b
ok-injective h = cc

exported_fields :
    (quote : Text → Text) (id : Text) (p : Profiler) (m : Manifest)
    → export quote id p ≡ ok m
    → m ≡ draft id (profile_of id p)
unfolding export profile_or_new
exported_fields quote id p m h = elim (Option-cases (lookup id p)) [
  | inl e ↦ absurd (ground arith)
  | inr (q, e) ↦
      let direct : export quote id p ≡ ok (draft id q) = rw (export, e) in
      ok-injective (sym h ∙ direct) ∙ ap (draft id) (sym (ap (profile_or_new 0) e))
]

-- The draft manifest of a skill lists the tools that it was seen calling and the hosts that it was
-- seen sending requests to: each list has at most a thousand elements, only observed ones and never
-- an empty one, and all of the observed ones unless it has exactly a thousand.
pub export-Drafted :
    (url_host : Text → Outcome Text) (quote : Text → Text) (rs : List RuntimeAction) (clock : ℕ → ℕ)
    (id : Text) (m : Manifest)
    → export quote id (observe_all url_host rs clock 0 new_profiler) ≡ ok m
    → Drafted (called_tools id rs) m.capabilities.tools
      × Drafted (visited_hosts url_host id rs) m.capabilities.network
export-Drafted url_host quote rs clock id m h =
    let (tools, hosts) = observed_fields url_host rs clock id in
    let exported = exported_fields quote id _ m h in
    (
      subst (Drafted (called_tools id rs))
          (sym (ap (λ (x : Manifest). x.capabilities.tools) exported ∙ ap sort_strings tools))
          (insert_all-Drafted (called_tools id rs)),
      subst (Drafted (visited_hosts url_host id rs))
          (sym (ap (λ (x : Manifest). x.capabilities.network) exported ∙ ap sort_strings hosts))
          (insert_all-Drafted (visited_hosts url_host id rs)),
    )
