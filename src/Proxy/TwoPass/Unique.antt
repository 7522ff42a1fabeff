-- ===== src/Proxy/TwoPass/Unique.antt =====
-- deduplicateFindings of proxy/secret_scanner.go, and the allowlist of the injection scanner.
use skillledger.Base.{
  ◌≡◌, refl, sym, ap, ◌∙◌, ◌↔◌, ◌⊎◌, inl, inr, true, false, Option, List, [], ◌∷◌, ◌++◌, arith,
  Bool-cases, Option-cases, All, All-map, Text, text_eq, text_eq_iff,
}
use mathlib.Core.Path.{subst}
use skillledger.Proxy.Scanner.{Finding}
use skillledger.Proxy.TwoPass.{mem_text, finding_key, deduplicate_from, deduplicate_findings}
use skillledger.Proxy.TwoPass.Injection.{
  InjectionAllowlist, InjectionScanner, scan_text, scan_all, texts_of_result, scan_message,
}
use skillledger.Proxy.JsonRpc.{JsonRpcMessage}

-- Some finding of the list has this key.
abbrev pub HasKey : Text → List Finding → Type 0
HasKey k [] = ⊥
HasKey k (f ∷ fs) = (finding_key f ≡ k) ⊎ HasKey k fs

abbrev pub DistinctKeys : List Finding → Type 0
DistinctKeys [] = Unit
DistinctKeys (f ∷ fs) = (¬ HasKey (finding_key f) fs) × DistinctKeys fs

-- The first list is left when findings are taken away from the second, in the same order.
pub data Sublist : List Finding → List Finding → Type 0 where
  done : Sublist [] []
  skip : {f : Finding} {xs ys : List Finding} → Sublist xs ys → Sublist xs (f ∷ ys)
  keep : {f : Finding} {xs ys : List Finding} → Sublist xs ys → Sublist (f ∷ xs) (f ∷ ys)

abbrev Covers : List Text → List Finding → List Finding → Type 0
Covers seen kept = All (λ f. (mem_text (finding_key f) seen ≡ true) ⊎ HasKey (finding_key f) kept)

-- No key of the list was seen.
abbrev Fresh : List Text → List Finding → Type 0
Fresh seen kept = (k : Text) → mem_text k seen ≡ true → ¬ HasKey k kept

-- What one round does with a finding whose key was seen, or was not.
from-seen :
    (seen : List Text) (f : Finding) (fs : List Finding)
    → mem_text (finding_key f) seen ≡ true
    → deduplicate_from seen (f ∷ fs) ≡ deduplicate_from seen fs
unfolding deduplicate_from
from-seen seen f fs e = rw (deduplicate_from, e)

from-new :
    (seen : List Text) (f : Finding) (fs : List Finding)
    → mem_text (finding_key f) seen ≡ false
    → deduplicate_from seen (f ∷ fs) ≡ f ∷ deduplicate_from (finding_key f ∷ seen) fs
unfolding deduplicate_from
from-new seen f fs e = rw (deduplicate_from, e)

mem_text_cons :
    (k j : Text) (seen : List Text)
    → (mem_text k (j ∷ seen) ≡ true) ↔ ((j ≡ k) ⊎ (mem_text k seen ≡ true))
unfolding mem_text
mem_text_cons k j seen = ground (arith, text_eq_iff j k)

from-Sublist : (seen : List Text) (fs : List Finding) → Sublist (deduplicate_from seen fs) fs
unfolding deduplicate_from
from-Sublist seen [] = done
from-Sublist seen (f ∷ fs) = elim (Bool-cases (mem_text (finding_key f) seen)) [
  | inl e ↦ rw (from-seen seen f fs e) (skip (from-Sublist seen fs))
  | inr e ↦ rw (from-new seen f fs e) (keep (from-Sublist (finding_key f ∷ seen) fs))
]

from-Fresh : (seen : List Text) (fs : List Finding) → Fresh seen (deduplicate_from seen fs)
unfolding deduplicate_from
from-Fresh seen [] = λ k old h. h
from-Fresh seen (f ∷ fs) = elim (Bool-cases (mem_text (finding_key f) seen)) [
  | inl e ↦ rw (from-seen seen f fs e) (from-Fresh seen fs)
  | inr e ↦ rw (from-new seen f fs e) (λ k old h. elim h [
    | inl same ↦ absurd (ground (arith, same))
    | inr later ↦
        from-Fresh (finding_key f ∷ seen) fs k ((mem_text_cons k (finding_key f) seen).1 (inr old))
          later
  ])
]

from-DistinctKeys : (seen : List Text) (fs : List Finding) → DistinctKeys (deduplicate_from seen fs)
unfolding deduplicate_from
from-DistinctKeys seen [] = tt
from-DistinctKeys seen (f ∷ fs) = elim (Bool-cases (mem_text (finding_key f) seen)) [
  | inl e ↦ rw (from-seen seen f fs e) (from-DistinctKeys seen fs)
  | inr e ↦ rw (from-new seen f fs e) (
    from-Fresh (finding_key f ∷ seen) fs (finding_key f)
        ((mem_text_cons (finding_key f) (finding_key f) seen).1 (inl refl)),
    from-DistinctKeys (finding_key f ∷ seen) fs,
  )
]

Covers-new :
    (k : Text) (f : Finding) (seen : List Text) (kept : List Finding)
    → finding_key f ≡ k
    → (g : Finding) → (mem_text (finding_key g) (k ∷ seen) ≡ true) ⊎ HasKey (finding_key g) kept
    → (mem_text (finding_key g) seen ≡ true) ⊎ HasKey (finding_key g) (f ∷ kept)
Covers-new k f seen kept e g (inr later) = inr (inr later)
Covers-new k f seen kept e g (inl old) = elim ((mem_text_cons (finding_key g) k seen).0 old) [
  | inl same ↦ inr (inl (e ∙ same))
  | inr before ↦ inl before
]

from-Covers : (seen : List Text) (fs : List Finding) → Covers seen (deduplicate_from seen fs) fs
from-Covers seen [] = tt
from-Covers seen (f ∷ fs) = elim (Bool-cases (mem_text (finding_key f) seen)) [
  | inl e ↦
      subst (λ kept. Covers seen kept (f ∷ fs)) (sym (from-seen seen f fs e))
        (inl e, from-Covers seen fs)
  | inr e ↦
      subst (λ kept. Covers seen kept (f ∷ fs)) (sym (from-new seen f fs e))
        (
          inr (inl refl),
          All-map
              (Covers-new (finding_key f) f seen (deduplicate_from (finding_key f ∷ seen) fs) refl)
              fs (from-Covers (finding_key f ∷ seen) fs),
        )
]

none_seen :
    (f : Finding) (kept : List Finding)
    → (mem_text (finding_key f) [] ≡ true) ⊎ HasKey (finding_key f) kept
    → HasKey (finding_key f) kept
unfolding mem_text
none_seen f kept (inl e) = absurd (ground arith)
none_seen f kept (inr h) = h

-- Deduplication keeps some of the findings, in their order, no two with the same key, and one with
-- the key of every finding that it drops.
pub deduplicate_findings-DistinctKeys :
    (fs : List Finding)
    → Sublist (deduplicate_findings fs) fs
      × DistinctKeys (deduplicate_findings fs)
      × All (λ f. HasKey (finding_key f) (deduplicate_findings fs)) fs
unfolding deduplicate_findings
deduplicate_findings-DistinctKeys fs = (
  from-Sublist [] fs,
  from-DistinctKeys [] fs,
  All-map (λ f. none_seen f (deduplicate_from [] fs)) fs (from-Covers [] fs),
)

scan_all_same :
    (s : InjectionScanner) (a : Option InjectionAllowlist) (texts : List Text)
    → scan_all (record s { allowlist = a }) texts ≡ scan_all s texts
unfolding scan_all scan_text text_eq
scan_all_same s a [] = refl
scan_all_same s a (t ∷ ts) = ap (λ rest. scan_text s t [] [] ++ rest) (scan_all_same s a ts)

-- The allowlist has no effect: whatever it contains, a message has the same findings, since it is
-- always scanned without a server and a tool.
pub allowlist_unused :
    (s : InjectionScanner) (a : Option InjectionAllowlist) (msg : JsonRpcMessage) (direction : Text)
    → scan_message (record s { allowlist = a }) msg direction ≡ scan_message s msg direction
unfolding scan_message texts_of_result
allowlist_unused s a msg direction = elim (Option-cases msg.result) [
  | inl e ↦ rw (scan_message, e)
  | inr (result, e) ↦ rw (scan_message, e, scan_all_same s a (texts_of_result s result))
]
