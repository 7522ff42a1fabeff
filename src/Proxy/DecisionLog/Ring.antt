-- ===== src/Proxy/DecisionLog/Ring.antt =====
-- The ring buffer of proxy/decision.go against the list of all recorded entries, newest first.
use skillledger.Base.{
  ℕ, zero, suc, ◌+◌, ◌-◌, ◌%◌, ◌≤◌, ◌<◌, min, ◌≡◌, refl, ◌∙◌, ◌≢◌, ◌⊎◌, inl, inr, Option, none,
  some, List, [], ◌∷◌, arith, ltb, leb, if◌then◌else◌, ltb→lt, Bool-cases, length, get_elem?, take,
  drop, length-set, length-replicate, get_elem?-set_self, get_elem?-lt, take-drop-suc, take-take,
  take-min, text_eq, Text, get_elem?-set_ne,
}
use skillledger.Proxy.DecisionLog.{
  DecisionEntry, zero_entry, DecisionLog, new, Outside, stamp, add, index, lookup_from,
  lookup_entry, recent_from, recent, add_all,
}

mod_small : (a s : ℕ) → a < s → a % s ≡ a
mod_small a s h = grind arith

mod_wrap : (a s : ℕ) → s ≤ a → a < s + s → a % s ≡ a - s
mod_wrap a s h k = grind arith

-- the two forms of the next head, and of a slot counted back from the head
next : (h s : ℕ) → h < s → ((h + 1 < s) × ((h + 1) % s ≡ h + 1)) ⊎ ((h + 1 ≡ s) × ((h + 1) % s ≡ 0))
next h s lt = elim (Bool-cases (ltb (h + 1) s)) [
  | inl room ↦ inl (ltb→lt _ _ room, mod_small (h + 1) s (ltb→lt _ _ room))
  | inr full ↦ inr (ground arith, mod_wrap (h + 1) s (ground arith) (omega arith) ∙ ground arith)
]

back :
    (h s i : ℕ)
    → h < s
    → i < s
    → ((i < h) × ((h + s - 1 - i) % s ≡ h - 1 - i))
      ⊎ ((h ≤ i) × ((h + s - 1 - i) % s ≡ h + s - 1 - i))
back h s i lt li = elim (Bool-cases (ltb i h)) [
  | inl below ↦
      inl (ltb→lt _ _ below, mod_wrap (h + s - 1 - i) s (ground arith) (omega arith) ∙ ground arith)
  | inr above ↦ inr (ground arith, mod_small (h + s - 1 - i) s (ground arith))
]

module _ (h s : ℕ) (lt : h < s) where
  next_lt : (h + 1) % s < s
  next_lt = ground (arith, next h s lt)

  newest : ((h + 1) % s + s - 1 - 0) % s ≡ h
  newest = ground (arith, next h s lt, back ((h + 1) % s) s 0 next_lt)

  older : (j : ℕ) → j + 1 < s → ((h + 1) % s + s - 1 - suc j) % s ≡ (h + s - 1 - j) % s
  older j lj = ground (arith, next h s lt, back ((h + 1) % s) s (suc j) next_lt, back h s j lt)

  older_ne : (j : ℕ) → j + 1 < s → h ≢ (h + s - 1 - j) % s
  older_ne j lj = ground (arith, back h s j lt)

-- `d` holds the history `hist`: slot `index d i` has the i-th newest entry.
pub record Holds (d : DecisionLog) (hist : List DecisionEntry) : Type 0 where
  pub room : length d.entries ≡ d.size
  pub head_lt : d.head < d.size
  pub counted : d.count ≡ min d.size (length hist)
  pub at : (i : ℕ) → i < d.count → get_elem? d.entries (index d i) ≡ get_elem? hist i

-- A new log is empty, and its capacity is 1000 if none is given.
pub new-Holds : (size : ℕ) → Holds (new size) []
unfolding new
new-Holds size = record {
  room = length-replicate _ zero_entry;
  head_lt = ground arith;
  counted = ground arith;
  at = λ i h. absurd (omega arith);
}

module _ (o : Outside) (e : DecisionEntry) (d : DecisionLog) (hist : List DecisionEntry)
    (h : Holds d hist) where
  suc_room : (j : ℕ) → suc j < (add o e d).count → (j < d.count) × (j + 1 < d.size)
  unfolding add
  suc_room j lt = ground (arith, h.counted)

  at-add :
      (i : ℕ)
      → i < (add o e d).count
      → get_elem? (add o e d).entries (index (add o e d) i) ≡ get_elem? (stamp o e ∷ hist) i
  unfolding add index
  at-add zero lt =
      rw (newest d.head d.size h.head_lt)
        (get_elem?-set_self d.entries d.head (stamp o e) (omega (arith, h.room, h.head_lt)))
  at-add (suc j) lt = rw (older d.head d.size h.head_lt j (suc_room j lt).1) (
      get_elem?-set_ne d.entries d.head _ (stamp o e)
        (older_ne d.head d.size h.head_lt j (suc_room j lt).1)
      ∙ h.at j (suc_room j lt).0)

  -- Recording an entry puts it, stamped, in front of the history.
  pub add-Holds : Holds (add o e d) (stamp o e ∷ hist)
  add-Holds = record {
    room = unfold add in length-set d.entries d.head (stamp o e) ∙ h.room;
    head_lt = unfold add in next_lt d.head d.size h.head_lt;
    counted = unfold add in ground (arith, h.counted, h.head_lt);
    at = at-add;
  }

-- The history after a run of Record calls.
unfoldable pub history : List (Outside × DecisionEntry) → List DecisionEntry → List DecisionEntry
history [] hist = hist
history ((o, e) ∷ es) hist = history es (stamp o e ∷ hist)

pub add_all-Holds :
    (es : List (Outside × DecisionEntry)) (d : DecisionLog) (hist : List DecisionEntry)
    → Holds d hist
    → Holds (add_all es d) (history es hist)
unfolding add_all history
add_all-Holds [] d hist h = h
add_all-Holds ((o, e) ∷ es) d hist h =
    add_all-Holds es (add o e d) (stamp o e ∷ hist) (add-Holds o e d hist h)

-- The first entry with this action id.
unfoldable pub find_id : Text → List DecisionEntry → Option DecisionEntry
find_id id [] = none
find_id id (e ∷ es) = if text_eq e.action_id id then some e else find_id id es

-- The two loops, over any log that holds a history.
module _ (d : DecisionLog) (hist : List DecisionEntry) (h : Holds d hist) where
  slot :
      (i : ℕ)
      → i < d.count
      → (x : DecisionEntry) × (get_elem? d.entries (index d i) ≡ some x)
        × (get_elem? hist i ≡ some x)
  slot i lt = let (x, e) = get_elem?-lt i hist (omega (arith, h.counted)) in (x, h.at i lt ∙ e, e)

  recent_from-eq :
      (i left : ℕ) → i + left ≤ d.count → recent_from d i left ≡ some (take left (drop i hist))
  unfolding recent_from
  recent_from-eq i zero le = refl
  recent_from-eq i (suc left) le =
      let (x, there, here) = slot i (omega arith) in
      rw (there, recent_from)
        (rw (recent_from-eq (suc i) left (omega arith), take-drop-suc i left hist x here))

  rounds : (n : ℕ) → (if ltb d.count n then d.count else n) ≡ min n (min d.size (length hist))
  rounds n = ground (arith, h.counted)

  kept : take (min d.size (length hist)) hist ≡ take d.size hist
  kept = take-min d.size hist

  pub recent-eq : (n : ℕ) → recent n d ≡ some (take n (take d.size hist))
  unfolding recent
  recent-eq n =
      rw (recent_from-eq 0 (if ltb d.count n then d.count else n) (ground arith), rounds n)
        (cc (kept, take-take n (min d.size (length hist)) hist))

  lookup_from-eq :
      (id : Text) (i left : ℕ)
      → i + left ≤ d.count
      → lookup_from d id i left ≡ some (find_id id (take left (drop i hist)))
  unfolding lookup_from find_id
  lookup_from-eq id i zero le = refl
  lookup_from-eq id i (suc left) le =
      let (x, there, here) = slot i (omega arith) in
      rw (there, lookup_from, take-drop-suc i left hist x here)
        (rw (lookup_from-eq id (suc i) left (omega arith)) (ground arith))

  pub lookup_entry-eq : (id : Text) → lookup_entry id d ≡ some (find_id id (take d.size hist))
  unfolding lookup_entry
  lookup_entry-eq id = lookup_from-eq id 0 d.count (omega arith) ∙ rw h.counted (rw kept)

abbrev pub capacity : ℕ → ℕ
capacity size = if leb size 0 then 1000 else size

size-add_all :
    (es : List (Outside × DecisionEntry)) (d : DecisionLog) → (add_all es d).size ≡ d.size
unfolding add_all add
size-add_all [] d = refl
size-add_all ((o, e) ∷ es) d = size-add_all es (add o e d)

size-run :
    (size : ℕ) (es : List (Outside × DecisionEntry)) → (add_all es (new size)).size ≡ capacity size
unfolding new
size-run size es = size-add_all es (new size)

run-Holds :
    (size : ℕ) (es : List (Outside × DecisionEntry)) → Holds (add_all es (new size)) (history es [])
run-Holds size es = add_all-Holds es (new size) [] (new-Holds size)

-- After any sequence of Record calls on a new log, Recent never indexes out of range: it returns the
-- newest n of the recorded entries, newest first and as they were stamped, of which the log keeps
-- as many as its capacity (1000 where the requested capacity is 0).
pub recent-run :
    (size n : ℕ) (es : List (Outside × DecisionEntry))
    → recent n (add_all es (new size)) ≡ some (take n (take (capacity size) (history es [])))
recent-run size n es =
    recent-eq (add_all es (new size)) (history es []) (run-Holds size es) n ∙ rw (size-run size es)

-- After any sequence of Record calls on a new log, Lookup never indexes out of range: it returns the
-- newest kept entry with the given action id, or reports that there is none.
pub lookup_entry-run :
    (size : ℕ) (id : Text) (es : List (Outside × DecisionEntry))
    → lookup_entry id (add_all es (new size))
      ≡ some (find_id id (take (capacity size) (history es [])))
lookup_entry-run size id es =
    lookup_entry-eq (add_all es (new size)) (history es []) (run-Holds size es) id
    ∙ rw (size-run size es)

take-one :
    (n : ℕ) (e : DecisionEntry) (hist : List DecisionEntry)
    → 0 < n
    → some (take 1 (take n (e ∷ hist))) ≡ some (e ∷ [])
take-one zero e hist h = absurd (omega arith)
take-one (suc n) e hist h = refl

-- The newest entry of a log that holds a history.
pub recent-newest :
    (d : DecisionLog) (e : DecisionEntry) (hist : List DecisionEntry)
    → Holds d (e ∷ hist)
    → recent 1 d ≡ some (e ∷ [])
recent-newest d e hist h =
    recent-eq d (e ∷ hist) h 1 ∙ take-one d.size e hist (ground (arith, h.head_lt))
