-- ===== src/Proxy/TrustVerifier/Cache.antt =====
-- The cache of proxy/trust_verifier.go over any interleaving of queries and verifications.
use skillledger.Base.{
  ℕ, suc, ◌-◌, ◌≤◌, ◌<◌, ◌≡◌, refl, inl, inr, false, Option, none, some, List, [], ◌∷◌, arith,
  if◌then◌else◌, ◌==◌, nat_eq, Bool-cases, Option-cases, Text, text_eq, text_eq→≡, text_eq_iff,
  text_eq_inst, lookup, lookup-put,
}
use mathlib.Core.Path.{subst}
use skillledger.Proxy.TrustVerifier.{
  verified, VerificationResult, Config, run_verification, State, init, pending, start_verification,
  get_tier, get_result, forget, write_result,
}
use skillledger.Proxy.TrustVerifier.Tiers.{Verified, run_verification-verified}

-- How many goroutines verify the skill.
abbrev pub count : Text → List Text → ℕ
count skill [] = 0
count skill (x ∷ xs) = if text_eq x skill then suc (count skill xs) else count skill xs

-- A query may start a verification at any time, and a running one may end at any time; `snapshot`
-- is what the verification that ends at a time has seen.
pub data Step (snapshot : ℕ → Config) (s : State) : State → Type 0 where
  start : (skill : Text) → Step snapshot s (start_verification skill s)
  finish :
      (now : ℕ) (skill : Text)
      → 0 < count skill s.running
      → Step snapshot s (write_result skill (run_verification (snapshot now) now skill) s)

pub data Reach (snapshot : ℕ → Config) (s : State) : State → Type 0 where
  here : Reach snapshot s s
  next : {t u : State} → Reach snapshot s t → Step snapshot t u → Reach snapshot s u

abbrev pub flights : Option VerificationResult → ℕ
flights none = 0
flights (some r) = if r.in_flight then 1 else 0

-- Some verification found the skill verified.
abbrev pub Earned : (ℕ → Config) → Text → Type 0
Earned snapshot skill = (now : ℕ) × Verified (snapshot now) skill

abbrev Sound : (ℕ → Config) → Text → Option VerificationResult → Type 0
Sound snapshot skill none = Unit
Sound snapshot skill (some r) = r.tier ≡ verified → Earned snapshot skill

one_flight : (o : Option VerificationResult) → flights o ≤ 1
one_flight none = omega arith
one_flight (some r) = ground arith

record Inv (snapshot : ℕ → Config) (s : State) : Type 0 where
  flying : (skill : Text) → count skill s.running ≡ flights (lookup skill s.cache)
  sound : (skill : Text) → Sound snapshot skill (lookup skill s.cache)

count-forget :
    (skill other : Text) (xs : List Text)
    → 0 < count skill xs
    → count other (forget skill xs)
      ≡ (if skill == other then count other xs - 1 else count other xs)
unfolding forget
count-forget skill other [] h = elim h [ ]
count-forget skill other (x ∷ xs) h = ground (
  arith,
  text_eq_iff x skill,
  text_eq_iff x other,
  text_eq_iff skill other,
  count-forget skill other xs,
)

put-Sound :
    (snapshot : ℕ → Config) (skill other : Text) (r : VerificationResult)
    (old : Option VerificationResult)
    → Sound snapshot skill (some r)
    → Sound snapshot other old
    → Sound snapshot other (if skill == other then some r else old)
put-Sound snapshot skill other r old earned before = elim (Bool-cases (skill == other)) [
  | inr ne ↦ rw ne before
  | inl e ↦ rw e (λ v. subst (Earned snapshot) (text_eq→≡ skill other e) (earned v))
]

start-Inv :
    (snapshot : ℕ → Config) (skill : Text) (s : State)
    → Inv snapshot s
    → Inv snapshot (start_verification skill s)
unfolding start_verification
start-Inv snapshot skill s h = elim (Option-cases (lookup skill s.cache)) [
  | inr (r, e) ↦ rw (e, start_verification) h
  | inl e ↦
      rw (e, start_verification)
        (record {
          flying = λ other. ground (
            arith,
            lookup-put skill other pending s.cache,
            text_eq_iff skill other,
            h.flying skill,
            h.flying other,
          );
          sound = λ other.
              rw lookup-put (put-Sound snapshot skill other pending _ (λ v. cc) (h.sound other));
        })
]

finish-Inv :
    (snapshot : ℕ → Config) (now : ℕ) (skill : Text) (s : State)
    → 0 < count skill s.running
    → Inv snapshot s
    → Inv snapshot (write_result skill (run_verification (snapshot now) now skill) s)
unfolding write_result
finish-Inv snapshot now skill s busy h = record {
  flying = λ other. ground (
    arith,
    lookup-put skill other
        (record (run_verification (snapshot now) now skill) { in_flight = false }) s.cache,
    count-forget skill other s.running busy,
    text_eq_iff skill other,
    one_flight (lookup skill s.cache),
    h.flying skill,
    h.flying other,
  );
  sound = λ other. rw lookup-put (
      put-Sound snapshot skill other _ _
        (λ v. (now, run_verification-verified (snapshot now) now skill v)) (h.sound other));
}

Step-Inv :
    {snapshot : ℕ → Config} {s t : State} → Step snapshot s t → Inv snapshot s → Inv snapshot t
Step-Inv {snapshot} {s} (start skill) h = start-Inv snapshot skill s h
Step-Inv {snapshot} {s} (finish now skill busy) h = finish-Inv snapshot now skill s busy h

Reach-Inv :
    {snapshot : ℕ → Config} {s t : State} → Inv snapshot s → Reach snapshot s t → Inv snapshot t
Reach-Inv h here = h
Reach-Inv h (next r st) = Step-Inv st (Reach-Inv h r)

init-Inv : (snapshot : ℕ → Config) → Inv snapshot init
unfolding lookup
init-Inv snapshot = record { flying = λ skill. refl; sound = λ skill. tt }

peek-verified :
    (snapshot : ℕ → Config) (skill : Text) (s : State)
    → Inv snapshot s
    → (get_tier skill s).0 ≡ verified
    → Earned snapshot skill
unfolding get_tier
peek-verified snapshot skill s h e = elim (Option-cases (lookup skill s.cache)) [
  | inl f ↦ absurd (ground arith)
  | inr (r, f) ↦
      let known : Sound snapshot skill (some r) = subst (Sound snapshot skill) f (h.sound skill) in
      known (ground arith)
]

-- In whatever order queries come and verifications end, GetTier says "verified" only for a skill
-- that some finished verification found on disk and trusted by the pipeline.
pub get_tier_sound :
    (snapshot : ℕ → Config) (s : State) (skill : Text)
    → Reach snapshot init s
    → (get_tier skill s).0 ≡ verified
    → Earned snapshot skill
get_tier_sound snapshot s skill r e =
    peek-verified snapshot skill s (Reach-Inv (init-Inv snapshot) r) e

-- At most one verification of a skill runs at a time, and it runs exactly while the cached result
-- is marked in flight.
pub one_verification :
    (snapshot : ℕ → Config) (s : State) (skill : Text)
    → Reach snapshot init s
    → (count skill s.running ≡ flights (get_result skill s)) × (count skill s.running ≤ 1)
unfolding get_result
one_verification snapshot s skill r =
    let inv : Inv snapshot s = Reach-Inv (init-Inv snapshot) r in
    (inv.flying skill, omega (arith, inv.flying skill, one_flight (lookup skill s.cache)))

Step-settled :
    {snapshot : ℕ → Config} {s t : State} (skill : Text) (r : VerificationResult)
    → Step snapshot s t
    → Inv snapshot s
    → lookup skill s.cache ≡ some r
    → r.in_flight ≡ false
    → lookup skill t.cache ≡ some r
unfolding start_verification write_result
Step-settled {snapshot} {s} skill r (start other) h e done =
    ground (arith, lookup-put other skill pending s.cache, text_eq_iff other skill)
Step-settled {snapshot} {s} skill r (finish now other busy) h e done = ground (
  arith,
  lookup-put other skill (record (run_verification (snapshot now) now other) { in_flight = false })
      s.cache,
  text_eq_iff other skill,
  h.flying other,
)

Reach-settled :
    {snapshot : ℕ → Config} {s t : State} (skill : Text) (r : VerificationResult)
    → Reach snapshot s t
    → Inv snapshot s
    → lookup skill s.cache ≡ some r
    → r.in_flight ≡ false
    → lookup skill t.cache ≡ some r
Reach-settled skill r here h e done = e
Reach-settled skill r (next more st) h e done =
    Step-settled skill r st (Reach-Inv h more) (Reach-settled skill r more h e done) done

-- A finished result stays for the whole session: no later query or verification changes it.
pub settled :
    (snapshot : ℕ → Config) (s t : State) (skill : Text) (r : VerificationResult)
    → Reach snapshot init s
    → Reach snapshot s t
    → get_result skill s ≡ some r
    → r.in_flight ≡ false
    → get_result skill t ≡ some r
unfolding get_result
settled snapshot s t skill r before after e done =
    Reach-settled skill r after (Reach-Inv (init-Inv snapshot) before) e done
