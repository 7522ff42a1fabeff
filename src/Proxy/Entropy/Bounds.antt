-- ===== src/Proxy/Entropy/Bounds.antt =====
-- EntropyTracker.Scan of proxy/entropy.go over a run of requests.
use skillledger.Base.{
  ℕ, suc, ◌+◌, ◌-◌, ◌≤◌, ◌<◌, ◌≡◌, refl, sym, ap, ◌∙◌, ◌≢◌, inl, inr, true, none, some, List, [],
  ◌∷◌, ◌++◌, arith, leb, leb→le, Bool-cases, Option-cases, length, length-drop, All, Text, text_eq,
  Dict, lookup, put, length-put,
}
use mathlib.Core.Path.{subst}
use skillledger.Proxy.Entropy.{
  Floats, SessionState, EntropyTracker, evict_oldest, oldest, make_room, slide, state_or_new,
  scan_entropy, session_count,
}
use skillledger.Proxy.Entropy.Sessions.{
  NamedWithin, evict_oldest-shrinks, lookup-within, put-NamedWithin,
}

module _ {F : Type 0} where
  slide-length : (size : ℕ) (x : F) (window : List F) → length (slide size x window) ≤ size
  unfolding slide
  slide-length size x window =
      let longer = window ++ x ∷ [] in ground (arith, length-drop (length longer - size) longer)

  -- The table has room for its sessions, and each window is bounded.
  abbrev pub Bounded : EntropyTracker F → Type 0
  Bounded t = (session_count t ≤ t.max_sessions) × NamedWithin t.window_size t.sessions

  make_room-fits :
      (t : EntropyTracker F) (key : Text) (v : SessionState F)
      → 0 < t.max_sessions
      → Bounded t
      → (length (put key v (make_room t key)) ≤ t.max_sessions)
        × NamedWithin t.window_size (make_room t key)
  unfolding make_room session_count
  make_room-fits t key v pos (le, h) = elim (Option-cases (lookup key t.sessions)) [
    | inr (s, e) ↦ rw (make_room, e) (ground (arith, length-put key v t.sessions), h)
    | inl e ↦ elim (Bool-cases (leb t.max_sessions (length t.sessions))) [
      | inl full ↦
          let (less, still) =
            evict_oldest-shrinks t.window_size t.sessions h (ground (arith, leb→le _ _ full)) in
          rw (make_room, e, full)
            (ground (arith, length-put key v (evict_oldest t.sessions)), still)
      | inr free ↦ rw (make_room, e, free) (ground (arith, length-put key v t.sessions), h)
    ]
  ]

  state_or_new-within :
      (size now : ℕ) (key : Text) (m : Dict (SessionState F))
      → NamedWithin size m
      → length (state_or_new now (lookup key m)).window ≤ size
  unfolding state_or_new
  state_or_new-within size now key m h = elim (Option-cases (lookup key m)) [
    | inl e ↦ rw (e) (omega arith)
    | inr (s, e) ↦ rw (e) (lookup-within size key s m h e)
  ]

  make_room-nameless :
      (t : EntropyTracker F) (key : Text) (last : ℕ)
      → oldest none t.sessions ≡ some ([], last)
      → lookup key t.sessions ≡ none
      → t.max_sessions ≤ session_count t
      → make_room t key ≡ t.sessions
  unfolding make_room evict_oldest session_count text_eq
  make_room-nameless t key last oldest_ new_ full =
      let at_capacity : leb t.max_sessions (length t.sessions) ≡ true = ground (arith, full) in
      rw (make_room, new_, at_capacity, evict_oldest, oldest_)

  put_new-length :
      (key : Text) (v : SessionState F) (m : Dict (SessionState F))
      → lookup key m ≡ none
      → length (put key v m) ≡ length m + 1
  put_new-length key v m e =
      let grown : length (put key v m) ≡ suc (length m) = rw (length-put key v m, e) in
      omega (arith, grown)

-- One call of Scan.
pub record Call : Type 0 where
  pub key : Text
  pub body : Text
  pub now : ℕ
  pub seen : ℕ

module _ {F : Type 0} (fl : Floats F) (decimal : ℕ → Text) where
  abbrev pub after_call : Call → EntropyTracker F → EntropyTracker F
  after_call c t = (scan_entropy fl decimal c.now c.seen c.key c.body t).1

  unfoldable pub after_calls : List Call → EntropyTracker F → EntropyTracker F
  after_calls [] t = t
  after_calls (c ∷ cs) t = after_calls cs (after_call c t)

  after_call-Bounded :
      (now seen : ℕ) (key body : Text) (t : EntropyTracker F)
      → key ≢ []
      → 0 < t.max_sessions
      → Bounded t
      → Bounded (scan_entropy fl decimal now seen key body t).1
  unfolding scan_entropy session_count
  after_call-Bounded now seen key [] t ne pos h = h
  after_call-Bounded now seen key (c ∷ cs) t ne pos h =
      let (fits, still) = make_room-fits t key _ pos h in
      (
        fits,
        put-NamedWithin t.window_size key _ (make_room t key) ne (slide-length t.window_size _ _)
            still,
      )

  same_limits :
      (now seen : ℕ) (key body : Text) (t : EntropyTracker F)
      → let t' = (scan_entropy fl decimal now seen key body t).1 in
        (t'.max_sessions ≡ t.max_sessions) × (t'.window_size ≡ t.window_size)
  unfolding scan_entropy
  same_limits now seen key [] t = (refl, refl)
  same_limits now seen key (c ∷ cs) t = (refl, refl)

  -- Over any run of requests to named hosts, the tracker keeps at most `max_sessions` sessions, and
  -- of each at most `window_size` samples.
  pub after_calls-Bounded :
      (cs : List Call) (t : EntropyTracker F)
      → All (λ c. c.key ≢ []) cs
      → 0 < t.max_sessions
      → Bounded t
      → Bounded (after_calls cs t)
  unfolding after_calls
  after_calls-Bounded [] t named pos h = h
  after_calls-Bounded (c ∷ cs) t (ne, named) pos h =
      after_calls-Bounded cs (after_call c t) named
        (subst (λ n. 0 < n) (sym (same_limits c.now c.seen c.key c.body t).0) pos)
        (after_call-Bounded c.now c.seen c.key c.body t ne pos h)

  -- Without that condition the table grows: a session of the empty host is not evicted, so when it
  -- is the oldest, each new host adds a session to the full table.
  pub nameless_grows :
      (now seen : ℕ) (key : Text) (c : ℕ) (cs : Text) (t : EntropyTracker F) (last : ℕ)
      → oldest none t.sessions ≡ some ([], last)
      → lookup key t.sessions ≡ none
      → t.max_sessions ≤ session_count t
      → session_count (scan_entropy fl decimal now seen key (c ∷ cs) t).1 ≡ session_count t + 1
  unfolding scan_entropy session_count
  nameless_grows now seen key c cs t last oldest_ new_ full =
      let room = make_room-nameless t key last oldest_ new_ full in
      put_new-length key _ (make_room t key) (ap (lookup key) room ∙ new_)
      ∙ ap (λ m. length m + 1) room
