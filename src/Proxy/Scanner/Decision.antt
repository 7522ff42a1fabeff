-- ===== src/Proxy/Scanner/Decision.antt =====
-- HighestDecision of proxy/scanner.go.
use skillledger.Base.{◌++◌, ◌≤◌, ◌≡◌, sym, ◌∙◌, refl, ◌↔◌, ◌⊎◌, inl, inr, List, [], ◌∷◌, arith, All}
use skillledger.Proxy.Scanner.{
  ActionType, allow, block, Finding, priority, raise, highest_from, highest_decision,
}

abbrev pub AtMost : ActionType → List Finding → Type 0
AtMost a = All (λ f. priority f.decision ≤ priority a)

-- One of the findings has this decision.
abbrev pub Decides : ActionType → List Finding → Type 0
Decides a [] = ⊥
Decides a (f ∷ fs) = (f.decision ≡ a) ⊎ Decides a fs

pub Decides-append_left :
    (a : ActionType) (xs ys : List Finding) → Decides a xs → Decides a (xs ++ ys)
Decides-append_left a [] ys d = absurd d
Decides-append_left a (x ∷ xs) ys (inl e) = inl e
Decides-append_left a (x ∷ xs) ys (inr d) = inr (Decides-append_left a xs ys d)

pub Decides-append_right :
    (a : ActionType) (xs ys : List Finding) → Decides a ys → Decides a (xs ++ ys)
Decides-append_right a [] ys d = d
Decides-append_right a (x ∷ xs) ys d = inr (Decides-append_right a xs ys d)

pub priority_injective : (a b : ActionType) → priority a ≡ priority b → a ≡ b
unfolding priority
priority_injective a b h = ground arith

AtMost-trans :
    (a b : ActionType) (fs : List Finding) → priority a ≤ priority b → AtMost a fs → AtMost b fs
AtMost-trans a b [] h m = tt
AtMost-trans a b (f ∷ fs) h m = (omega arith, AtMost-trans a b fs h m.1)

raise-max :
    (a d : ActionType)
    → (priority a ≤ priority (raise a d))
      × (priority d ≤ priority (raise a d))
      × ((raise a d ≡ a) ⊎ (raise a d ≡ d))
unfolding raise
raise-max a d = ground arith

highest_from-ge : (a : ActionType) (fs : List Finding) → priority a ≤ priority (highest_from a fs)
unfolding highest_from
highest_from-ge a [] = omega arith
highest_from-ge a (f ∷ fs) =
    omega (arith, raise-max a f.decision, highest_from-ge (raise a f.decision) fs)

highest_from-AtMost : (a : ActionType) (fs : List Finding) → AtMost (highest_from a fs) fs
unfolding highest_from
highest_from-AtMost a [] = tt
highest_from-AtMost a (f ∷ fs) = (
  omega (arith, raise-max a f.decision, highest_from-ge (raise a f.decision) fs),
  highest_from-AtMost (raise a f.decision) fs,
)

highest_from-Decides :
    (a : ActionType) (fs : List Finding) → (highest_from a fs ≡ a) ⊎ Decides (highest_from a fs) fs
unfolding highest_from
highest_from-Decides a [] = inl refl
highest_from-Decides a (f ∷ fs) = elim (highest_from-Decides (raise a f.decision) fs) [
  | inl e ↦ elim (raise-max a f.decision).2 [
    | inl same ↦ inl (e ∙ same)
    | inr found ↦ inr (inl (sym (e ∙ found)))
  ]
  | inr d ↦ inr (inr d)
]

-- HighestDecision is the maximum: no finding has a decision of a higher priority, and it is the
-- decision of one of the findings, or "allow" if every finding allows or there is none.
pub highest_decision-max :
    (fs : List Finding)
    → AtMost (highest_decision fs) fs
      × ((highest_decision fs ≡ allow) ⊎ Decides (highest_decision fs) fs)
unfolding highest_decision
highest_decision-max fs = (highest_from-AtMost allow fs, highest_from-Decides allow fs)

Decides-AtMost :
    (a b : ActionType) (fs : List Finding) → Decides a fs → AtMost b fs → priority a ≤ priority b
Decides-AtMost a b (f ∷ fs) (inl e) m = rw (← e) m.0
Decides-AtMost a b (f ∷ fs) (inr d) m = Decides-AtMost a b fs d m.1
Decides-AtMost a b [] d m = absurd d

priority_block : (a : ActionType) → priority block ≤ priority a → a ≡ block
unfolding priority
priority_block a h = ground arith

-- A set of findings is blocked exactly when one of them says so, wherever it stands.
pub block_iff_Decides : (fs : List Finding) → (highest_decision fs ≡ block) ↔ Decides block fs
block_iff_Decides fs = (
  λ e. elim (highest_decision-max fs).1 [ inl none_decides ↦ cc | inr d ↦ rw e at d ],
  λ d. priority_block _ (Decides-AtMost block _ fs d (highest_decision-max fs).0),
)
