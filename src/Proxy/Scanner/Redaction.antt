-- ===== src/Proxy/Scanner/Redaction.antt =====
-- Redact of proxy/scanner.go.
use skillledger.Base.{
  ◌-◌, ◌≤◌, ◌<◌, ◌≡◌, sym, ◌∙◌, inl, inr, ◌++◌, arith, leb, if◌then◌else◌, leb→le, Bool-cases,
  length, take, drop, length-append, length-take, length-drop, Text,
}
use skillledger.Proxy.Scanner.{mask, redact}

redact_long : (s : Text) → 8 < length s → redact s ≡ take 4 s ++ (mask ++ drop (length s - 4) s)
unfolding redact
redact_long s h = ground arith

redact_short : (s : Text) → length s ≤ 8 → redact s ≡ mask
unfolding redact
redact_short s h = ground arith

length-redact_long : (s : Text) → 8 < length s → length (redact s) ≡ 12
length-redact_long s h = rw (redact_long s h) (
    omega (
      arith,
      length-append (take 4 s) (mask ++ drop (length s - 4) s),
      length-take 4 s,
      length-drop (length s - 4) s,
    ))

length-redact : (s : Text) → length (redact s) ≡ (if leb (length s) 8 then 4 else 12)
length-redact s = elim (Bool-cases (leb (length s) 8)) [
  | inl short ↦ rw (short, redact_short s (leb→le _ _ short))
  | inr long ↦ rw long (length-redact_long s (ground arith))
]

-- A value of at most 8 bytes is masked whole; of a longer one the output has 12 bytes and is the
-- same for every longer value with the same first 4 and last 4 bytes, so nothing else of it, its
-- length included, can be read off.
pub redact_hides :
    (s t : Text)
    → (length (redact s) ≡ (if leb (length s) 8 then 4 else 12))
      × (length s ≤ 8 → length t ≤ 8 → redact s ≡ redact t)
      × (8 < length s
          → 8 < length t
          → take 4 s ≡ take 4 t
          → drop (length s - 4) s ≡ drop (length t - 4) t
          → redact s ≡ redact t)
redact_hides s t = (
  length-redact s,
  λ h k. redact_short s h ∙ sym (redact_short t k),
  λ h k first last. cc (redact_long s h, redact_long t k, first, last),
)
