-- ===== src/Proxy/Handler/Requests.antt =====
-- OnRequest of proxy/handler.go as a whole: what is forwarded, what is refused, what is recorded.
use skillledger.Base.{
  ℕ, zero, suc, ◌+◌, ◌≤◌, min, ◌≡◌, refl, sym, ap, ◌∙◌, ◌≢◌, ◌↔◌, inl, inr, ◌||◌, Option, none,
  some, List, List-cases, [], ◌∷◌, ◌++◌, arith, ltb, if◌then◌else◌, ◌==◌, nat_eq, Bool, true, false,
  Bool-cases, length, take, length-take, take-append-drop, take-take, Text, codes, text_eq_inst,
  lookup, put, remove, lookup-put, lookup-remove,
}
use skillledger.Proxy.Scanner.{block, Finding, Request, run, highest_decision}
use skillledger.Proxy.Scanner.Decision.{Decides, block_iff_Decides}
use skillledger.Proxy.DecisionLog.{DecisionEntry, Outside, stamp, recent, write_findings}
use skillledger.Proxy.DecisionLog.Ring.{Holds, add-Holds, recent-newest}
use skillledger.Proxy.Handler.{
  protocol_header, skill_id_header, max_body_size, Handler, inject_protocol_header,
  strip_protocol_header, forwarded_body, scanned_body, Outer, check_capability, body_of, decide,
  request_entry, write_violation, refusal, with_forwarded_body, on_request,
}

-- The request as the scanners and the capability check see it.
abbrev pub seen : Request → Request
seen r = with_forwarded_body (inject_protocol_header r)

abbrev pub scanner_findings : {S : Type 0} → Request → Handler S → List Finding
scanner_findings r h =
    (run h.pipeline h.scanners (seen r) (scanned_body max_body_size (body_of r))).0

abbrev pub capability_findings : {S : Type 0} → Outer → Request → Handler S → List Finding
capability_findings o r h = (check_capability o h.policy (seen r) h.trust_verifier h.cap_eval).found

-- All findings on a request: those of the scanners, then those of the capability check.
abbrev pub all_findings : {S : Type 0} → Outer → Request → Handler S → List Finding
all_findings o r h = scanner_findings r h ++ capability_findings o r h

take-all : {A : Type 0} (n : ℕ) (xs : List A) → length xs ≤ n → take (suc n) xs ≡ take n xs
take-all zero [] h = refl
take-all zero (x ∷ xs) h = absurd (omega arith)
take-all (suc n) [] h = refl
take-all (suc n) (x ∷ xs) h = ap (λ ys. x ∷ ys) (take-all n xs (omega arith))

min_suc : (n : ℕ) → min n (n + 1) ≡ n
min_suc n = omega arith

add_one : (n : ℕ) → n + 1 ≡ suc n
add_one n = omega arith

scanned_prefix : (limit : ℕ) (b : Text) → scanned_body limit b ≡ take limit b
unfolding scanned_body
scanned_prefix limit b = elim (Bool-cases (ltb limit (length (take (limit + 1) b)))) [
  | inl e ↦ rw (e, take-take limit (limit + 1) b, min_suc limit)
  | inr e ↦ rw (e, add_one limit) (take-all limit b (ground (arith, length-take (limit + 1) b)))
]

-- The body goes on as it came, however long it is, and what is scanned of it is its longest prefix
-- of at most `limit` bytes.
pub forwarded_scanned :
    (limit : ℕ) (b : Text) → (forwarded_body limit b ≡ b) × (scanned_body limit b ≡ take limit b)
unfolding forwarded_body scanned_body
forwarded_scanned limit b = (take-append-drop (limit + 1) b, scanned_prefix limit b)

body_unmodified :
    (limit : ℕ) (b : Option Text)
    → elim b [ none ↦ none | some x ↦ some (forwarded_body limit x) ] ≡ b
body_unmodified limit none = refl
body_unmodified limit (some b) = ap some (forwarded_scanned limit b).0

lookup-stripped :
    (name : Text) (r : Request)
    → lookup name
        (remove protocol_header (remove skill_id_header (inject_protocol_header r).header))
      ≡ (if (protocol_header == name) || (skill_id_header == name)
          then none
          else lookup name r.header)
unfolding inject_protocol_header
lookup-stripped name r = ground (
  arith,
  lookup-remove protocol_header name
      (remove skill_id_header (put protocol_header (codes "v1") r.header)),
  lookup-remove skill_id_header name (put protocol_header (codes "v1") r.header),
  lookup-put protocol_header name (codes "v1") r.header,
)

-- Of the request that came in, OnRequest passes on the method, the host, the path and the body
-- unchanged, and every header but the two internal ones, which are not passed on.
pub on_request-forwards :
    {S : Type 0} (o : Outer) (r : Request) (h : Handler S) (name : Text)
    → let sent = (on_request o r h).0.forwarded in
      (sent.body ≡ r.body)
      × (sent.host ≡ r.host)
      × (sent.method ≡ r.method)
      × (sent.path ≡ r.path)
      × (lookup name sent.header ≡ (
          if (protocol_header == name) || (skill_id_header == name)
          then none
          else lookup name r.header))
unfolding on_request inject_protocol_header strip_protocol_header
on_request-forwards o r h name =
    (body_unmodified max_body_size r.body, refl, refl, refl, lookup-stripped name r)

refusal_iff : (e : DecisionEntry) → (refusal e ≢ none) ↔ (e.decision ≡ block)
refusal_iff e = ground arith

decide-highest : (fs : List Finding) → (decide fs).0 ≡ highest_decision fs
unfolding highest_decision
decide-highest [] = refl
decide-highest (f ∷ fs) = refl

-- OnRequest answers with a 403 exactly if one of the findings, of any scanner or of the capability
-- check, decides to block.
pub refused_iff_Decides :
    {S : Type 0} (o : Outer) (r : Request) (h : Handler S)
    → ((on_request o r h).0.refused ≢ none) ↔ Decides block (all_findings o r h)
unfolding on_request request_entry
refused_iff_Decides o r h =
    let e =
      request_entry o (seen r)
        (check_capability o h.policy (seen r) h.trust_verifier h.cap_eval).tier
        (all_findings o r h) in
    (
      λ refused.
          (block_iff_Decides (all_findings o r h)).0
            (sym (decide-highest (all_findings o r h)) ∙ (refusal_iff e).0 refused),
      λ d.
          (refusal_iff e).1
            (decide-highest (all_findings o r h) ∙ (block_iff_Decides (all_findings o r h)).1 d),
    )

-- What the violation file gets for an entry: one line, if it has findings and can be encoded.
write_violation-line :
    (o : Outside) (e : DecisionEntry) (file line : Text)
    → e.findings ≢ []
    → o.marshal e ≡ some line
    → write_violation o e (some file) ≡ some (o.write file (line ++ 10 ∷ []))
unfolding write_violation write_findings
write_violation-line o e file line some_findings encoded = elim (List-cases e.findings) [
  | inl empty ↦ absurd (some_findings empty)
  | inr (f, fs, eq) ↦ rw (write_violation, write_findings, eq, encoded)
]

write_violation-none :
    (o : Outside) (e : DecisionEntry) (file : Option Text)
    → e.findings ≡ []
    → write_violation o e file ≡ file
unfolding write_violation write_findings
write_violation-none o e none h = refl
write_violation-none o e (some file) h = rw (write_violation, write_findings, h)

same_branches : {A : Type 0} (b : Bool) (x : A) → (if b then x else x) ≡ x
same_branches true x = refl
same_branches false x = refl

-- OnRequest makes one entry, with all findings. In a log that holds a history, the newest entry is
-- then this one with the time at which it was recorded; with a violation file and a finding, the file
-- gets as its next line, if it can be encoded, the same entry with the zero time; without a finding
-- the file stays as it is.
pub violations_untimed :
    {S : Type 0} (o : Outer) (r : Request) (h : Handler S) (hist : List DecisionEntry)
    → Holds h.decision_log hist
    → let h' = (on_request o r h).1 in
      (e : DecisionEntry) × (logged : DecisionEntry) × (e.timestamp ≡ 0)
      × (e.findings ≡ all_findings o r h)
      × (recent 1 h'.decision_log ≡ some (logged ∷ []))
      × (record logged { timestamp = 0 } ≡ e)
      × (logged.timestamp ≡ o.outside.now)
      × ((file line : Text)
          → h.violations ≡ some file
          → all_findings o r h ≢ []
          → o.outside.marshal e ≡ some line
          → h'.violations ≡ some (o.outside.write file (line ++ 10 ∷ [])))
      × (all_findings o r h ≡ [] → h'.violations ≡ h.violations)
unfolding on_request request_entry stamp
violations_untimed o r h hist holds =
    let e =
      request_entry o (seen r)
        (check_capability o h.policy (seen r) h.trust_verifier h.cap_eval).tier
        (all_findings o r h) in
    (
      e,
      stamp o.outside e,
      refl,
      refl,
      recent-newest _ (stamp o.outside e) hist (add-Holds o.outside e h.decision_log hist holds),
      ap (λ id. record e { action_id = id }) (same_branches _ _),
      refl,
      λ file line there found encoded.
          ap (write_violation o.outside e) there
          ∙ write_violation-line o.outside e file line found encoded,
      λ empty. write_violation-none o.outside e h.violations empty,
    )
