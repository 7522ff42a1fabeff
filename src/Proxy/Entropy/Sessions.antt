-- ===== src/Proxy/Entropy/Sessions.antt =====
-- The session table of proxy/entropy.go: how large it gets.
use skillledger.Base.{
  ℕ, ◌≤◌, ◌<◌, ◌≡◌, refl, sym, ◌≢◌, ◌⊎◌, inl, inr, false, none, some, [], ◌∷◌, arith, ltb,
  Bool-cases, length, All, Text, text_eq, text_eq→≡, text_eq_iff, Dict, lookup, put, remove,
}
use mathlib.Core.Path.{subst}
use skillledger.Proxy.Entropy.{SessionState, oldest, evict_oldest}

named_test : (k : Text) → k ≢ [] → text_eq k [] ≡ false
unfolding text_eq
named_test [] ne = absurd (ne refl)
named_test (c ∷ k) ne = refl

module _ {F : Type 0} where
  -- Every host has a name, and its window has at most this many samples.
  abbrev pub NamedWithin : ℕ → Dict (SessionState F) → Type 0
  NamedWithin size = All (λ (k, s). (k ≢ []) × (length s.window ≤ size))

  remove-length : (k : Text) (m : Dict (SessionState F)) → length (remove k m) ≤ length m
  unfolding remove
  remove-length k [] = omega arith
  remove-length k ((j, s) ∷ m) = ground (arith, remove-length k m)

  remove_known-length :
      (k : Text) (s : SessionState F) (m : Dict (SessionState F))
      → lookup k m ≡ some s
      → length (remove k m) < length m
  unfolding remove lookup
  remove_known-length k s [] h = absurd (ground arith)
  remove_known-length k s ((j, r) ∷ m) h =
      ground (arith, remove-length k m, remove_known-length k s m)

  remove-NamedWithin :
      (size : ℕ) (k : Text) (m : Dict (SessionState F))
      → NamedWithin size m
      → NamedWithin size (remove k m)
  unfolding remove
  remove-NamedWithin size k [] h = tt
  remove-NamedWithin size k ((j, s) ∷ m) (here, later) = elim (Bool-cases (text_eq j k)) [
    | inl e ↦ rw (remove, e) (remove-NamedWithin size k m later)
    | inr e ↦ rw (remove, e) (here, remove-NamedWithin size k m later)
  ]

  pub put-NamedWithin :
      (size : ℕ) (k : Text) (v : SessionState F) (m : Dict (SessionState F))
      → k ≢ []
      → length v.window ≤ size
      → NamedWithin size m
      → NamedWithin size (put k v m)
  unfolding put
  put-NamedWithin size k v [] ne le h = ((ne, le), tt)
  put-NamedWithin size k v ((j, s) ∷ m) ne le (here, later) = elim (Bool-cases (text_eq j k)) [
    | inl e ↦ rw (put, e) ((ne, le), later)
    | inr e ↦ rw (put, e) (here, put-NamedWithin size k v m ne le later)
  ]

  pub lookup-within :
      (size : ℕ) (k : Text) (s : SessionState F) (m : Dict (SessionState F))
      → NamedWithin size m
      → lookup k m ≡ some s
      → length s.window ≤ size
  unfolding lookup
  lookup-within size k s [] h e = absurd (ground arith)
  lookup-within size k s ((j, r) ∷ m) (here, later) e = elim (Bool-cases (text_eq j k)) [
    | inl same ↦
        let eq : r ≡ s = ground arith in
        subst (λ (x : SessionState F). length x.window ≤ size) eq here.1
    | inr other ↦ lookup-within size k s m later (ground arith)
  ]

  abbrev Known : Text → Dict (SessionState F) → Type 0
  Known k m = (s : SessionState F) × (lookup k m ≡ some s)

  Known-cons :
      (k j : Text) (r : SessionState F) (m : Dict (SessionState F))
      → Known k m
      → Known k ((j, r) ∷ m)
  unfolding lookup
  Known-cons k j r m (s, e) = elim (Bool-cases (text_eq j k)) [
    | inl same ↦ (r, rw (lookup, same))
    | inr other ↦ (s, rw (lookup, other) e)
  ]

  Known-head : (j : Text) (r : SessionState F) (m : Dict (SessionState F)) → Known j ((j, r) ∷ m)
  unfolding lookup
  Known-head j r m = (r, rw (lookup, (text_eq_iff j j).1 refl))

  -- The key found so far stays, or the key of a session is found.
  oldest-found :
      (k' : Text) (t' : ℕ) (m : Dict (SessionState F))
      → (k : Text) × (t : ℕ) × (oldest (some (k', t')) m ≡ some (k, t)) × ((k ≡ k') ⊎ Known k m)
  unfolding oldest
  oldest-found k' t [] = (k', t, refl, inl refl)
  oldest-found k' t ((j, s) ∷ m) = elim (Bool-cases (ltb s.last_seen t)) [
    | inl e ↦
        let (k, u, found, which) = oldest-found j s.last_seen m in
        (
          k,
          u,
          rw (oldest, e) found,
          elim which [
            | inl same ↦ inr (subst (λ x. Known x ((j, s) ∷ m)) (sym same) (Known-head j s m))
            | inr known ↦ inr (Known-cons k j s m known)
          ],
        )
    | inr e ↦
        let (k, u, found, which) = oldest-found k' t m in
        (
          k,
          u,
          rw (oldest, e) found,
          elim which [ inl same ↦ inl same | inr known ↦ inr (Known-cons k j s m known) ],
        )
  ]

  oldest-Known :
      (j : Text) (s : SessionState F) (m : Dict (SessionState F))
      → (k : Text) × (t : ℕ) × (oldest none ((j, s) ∷ m) ≡ some (k, t)) × Known k ((j, s) ∷ m)
  unfolding oldest
  oldest-Known j s m =
      let (k, t, found, which) = oldest-found j s.last_seen m in
      (
        k,
        t,
        found,
        elim which [
          | inl same ↦ subst (λ x. Known x ((j, s) ∷ m)) (sym same) (Known-head j s m)
          | inr known ↦ Known-cons k j s m known
        ],
      )

  key_named :
      (size : ℕ) (k : Text) (m : Dict (SessionState F)) → NamedWithin size m → Known k m → k ≢ []
  unfolding lookup
  key_named size k [] h (s, e) = absurd (ground arith)
  key_named size k ((j, r) ∷ m) (here, later) (s, e) = elim (Bool-cases (text_eq j k)) [
    | inl same ↦ subst (λ x. x ≢ []) (text_eq→≡ j k same) here.0
    | inr other ↦ key_named size k m later (s, ground arith)
  ]

  -- An eviction among named sessions takes one away.
  pub evict_oldest-shrinks :
      (size : ℕ) (m : Dict (SessionState F))
      → NamedWithin size m
      → 0 < length m
      → (length (evict_oldest m) < length m) × NamedWithin size (evict_oldest m)
  unfolding evict_oldest
  evict_oldest-shrinks size [] h lt = elim lt [ ]
  evict_oldest-shrinks size ((j, s) ∷ m) h lt =
      let (k, t, found, (r, known)) = oldest-Known j s m in
      let named = named_test k (key_named size k ((j, s) ∷ m) h (r, known)) in
      rw (evict_oldest, found, named)
        (remove_known-length k r ((j, s) ∷ m) known, remove-NamedWithin size k ((j, s) ∷ m) h)
