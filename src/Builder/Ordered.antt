-- ===== src/Builder/Ordered.antt =====
-- Collect of cli/internal/builder/collector.go, in whatever order the directory is walked.
use skillledger.Base.{
  ◌≡◌, refl, sym, ap, ◌∙◌, ◌≢◌, inl, inr, Option, none, some, List, [], ◌∷◌, arith, All, Text,
  Outcome, ok, err, ◌>>=◌, Outcome-cases, >>=-ok,
}
use mathlib.Core.List.{Permᴰ}
use mathlib.Core.List.Permᴰ.{nil, cons, swap, trans}
use mathlib.Core.Path.{subst}
use skillledger.Builder.Sorted.{insert_comm}
use skillledger.Builder.{
  FileEntry, Visit, Collector, patterns_of, visit, append_entry, walk, insert_entry, sort_entries,
  collect,
}

-- No two visits have the same path.
abbrev pub DistinctPaths : List Visit → Type 0
DistinctPaths [] = Unit
DistinctPaths (v ∷ vs) = All (λ w. v.rel ≢ w.rel) vs × DistinctPaths vs

ok-injective : {a b : List FileEntry} → ok a ≡ ok b → a ≡ b
ok-injective h = cc

-- The entry of a visit goes into sorted entries.
abbrev insert_if : Option FileEntry → List FileEntry → List FileEntry
insert_if none es = es
insert_if (some e) es = insert_entry e es

All-perm {κ} : {A : Type 0} (P : A → Type κ) {xs ys : List A} → Permᴰ xs ys → All P xs → All P ys
All-perm P nil h = tt
All-perm P (cons e p) (here, later) = (subst P e here, All-perm P p later)
All-perm P (swap e e') (first, (second, later)) = (subst P e' second, (subst P e first, later))
All-perm P (trans p q) h = All-perm P q (All-perm P p h)

module _ (c : Collector) (patterns : List Text) where
  -- What Collect makes of a walk, visit by visit.
  unfoldable sorted_walk : List Visit → Outcome (List FileEntry)
  unfolding insert_entry
  sorted_walk [] = ok []
  sorted_walk (v ∷ vs) =
      visit c patterns v >>= λ entry. sorted_walk vs >>= λ entries. ok (insert_if entry entries)

  sort-append :
      (entry : Option FileEntry) (es : List FileEntry)
      → sort_entries (append_entry entry es) ≡ insert_if entry (sort_entries es)
  unfolding sort_entries append_entry
  sort-append none es = refl
  sort-append (some e) es = refl

  sort-after :
      (entry : Option FileEntry) (o : Outcome (List FileEntry))
      → ((o >>= λ es. ok (append_entry entry es)) >>= λ es. ok (sort_entries es))
        ≡ ((o >>= λ es. ok (sort_entries es)) >>= λ es. ok (insert_if entry es))
  sort-after entry (ok es) = ap (λ l. ok l) (sort-append entry es)
  sort-after entry (err e) = refl

  walk-sorted :
      (vs : List Visit) → (walk c patterns vs >>= λ es. ok (sort_entries es)) ≡ sorted_walk vs
  unfolding walk sorted_walk sort_entries
  walk-sorted [] = refl
  walk-sorted (v ∷ vs) = elim (Outcome-cases (visit c patterns v)) [
    | inr (e, h) ↦ rw (walk, sorted_walk, h)
    | inl (entry, h) ↦ rw (h) (
        sort-after entry (walk c patterns vs)
        ∙ ap (λ o. o >>= λ es. ok (insert_if entry es)) (walk-sorted vs))
  ]

  visit-rel : (v : Visit) (e : FileEntry) → visit c patterns v ≡ ok (some e) → v.rel ≡ e.rel_path
  unfolding visit
  visit-rel v e h = ground arith

  -- Two visits to different paths can change places.
  insert_if_comm :
      (v w : Visit) (e f : Option FileEntry) (gs : List FileEntry)
      → v.rel ≢ w.rel
      → visit c patterns v ≡ ok e
      → visit c patterns w ≡ ok f
      → insert_if e (insert_if f gs) ≡ insert_if f (insert_if e gs)
  insert_if_comm v w none f gs ne h k = refl
  insert_if_comm v w (some e) none gs ne h k = refl
  insert_if_comm v w (some e) (some f) gs ne h k =
      insert_comm e f gs (λ same. ne (visit-rel v e h ∙ (same ∙ sym (visit-rel w f k))))

  sorted_walk-cons :
      (v : Visit) (vs : List Visit) (es : List FileEntry)
      → sorted_walk (v ∷ vs) ≡ ok es
      → (e : Option FileEntry) × (fs : List FileEntry) × (visit c patterns v ≡ ok e)
        × (sorted_walk vs ≡ ok fs)
        × (insert_if e fs ≡ es)
  unfolding sorted_walk
  sorted_walk-cons v vs es h =
      let (e, visited, rest) = >>=-ok (visit c patterns v) _ h in
      let (fs, walked, same) = >>=-ok (sorted_walk vs) _ rest in
      (e, fs, visited, walked, ok-injective same)

  sorted_walk-made :
      (v : Visit) (vs : List Visit) (e : Option FileEntry) (fs : List FileEntry)
      → visit c patterns v ≡ ok e
      → sorted_walk vs ≡ ok fs
      → sorted_walk (v ∷ vs) ≡ ok (insert_if e fs)
  unfolding sorted_walk
  sorted_walk-made v vs e fs h k = rw (h, k)

  sorted_walk-swap :
      (v w : Visit) (vs : List Visit) (es : List FileEntry)
      → v.rel ≢ w.rel
      → sorted_walk (v ∷ w ∷ vs) ≡ ok es
      → sorted_walk (w ∷ v ∷ vs) ≡ ok es
  sorted_walk-swap v w vs es ne h =
      let (e, gs, visited, walked, made) = sorted_walk-cons v (w ∷ vs) es h in
      let (f, fs, visited', walked', made') = sorted_walk-cons w vs gs walked in
      sorted_walk-made w (v ∷ vs) f (insert_if e fs) visited'
        (sorted_walk-made v vs e fs visited walked')
      ∙ ap (λ l. ok l)
          (insert_if_comm w v f e fs (λ same. ne (sym same)) visited' visited
            ∙ (ap (insert_if e) made' ∙ made))

  DistinctPaths-perm : {vs ws : List Visit} → Permᴰ vs ws → DistinctPaths vs → DistinctPaths ws
  DistinctPaths-perm nil h = tt
  DistinctPaths-perm (cons {l₂ = l₂} e p) (here, later) =
      subst (λ x. DistinctPaths (x ∷ l₂)) e (All-perm _ p here, DistinctPaths-perm p later)
  DistinctPaths-perm (swap {b = b} {b' = b'} {l = l} e e') ((ne, first), (second, later)) =
      subst (λ x. DistinctPaths (x ∷ b' ∷ l)) e'
        (subst (λ y. DistinctPaths (b ∷ y ∷ l)) e ((λ same. ne (sym same), second), (first, later)))
  DistinctPaths-perm (trans p q) h = DistinctPaths-perm q (DistinctPaths-perm p h)

  sorted_walk-perm :
      {vs ws : List Visit} (es : List FileEntry)
      → Permᴰ vs ws
      → DistinctPaths vs
      → sorted_walk vs ≡ ok es
      → sorted_walk ws ≡ ok es
  sorted_walk-perm es nil d h = h
  sorted_walk-perm es (cons {a = a} {l₁ = l₁} {l₂ = l₂} e p) d h =
      let (entry, fs, visited, walked, made) = sorted_walk-cons a l₁ es h in
      subst (λ x. sorted_walk (x ∷ l₂) ≡ ok es) e
        (sorted_walk-made a l₂ entry fs visited (sorted_walk-perm fs p d.1 walked)
          ∙ ap (λ l. ok l) made)
  sorted_walk-perm es (swap {a = a} {b = b} {b' = b'} {l = l} e e') d h =
      subst (λ x. sorted_walk (x ∷ b' ∷ l) ≡ ok es) e'
        (subst (λ y. sorted_walk (b ∷ y ∷ l) ≡ ok es) e (sorted_walk-swap a b l es d.0.0 h))
  sorted_walk-perm es (trans p q) d h =
      sorted_walk-perm es q (DistinctPaths-perm p d) (sorted_walk-perm es p d h)

-- Collect does not depend on the order of the walk: in any other order of the same visits, to
-- distinct paths, it collects the same entries in the same order, and still without an error.
pub collect-perm :
    (c : Collector) (ignore_file : Outcome Text) (vs ws : List Visit) (es : List FileEntry)
    → Permᴰ vs ws
    → DistinctPaths vs
    → collect c ignore_file vs ≡ ok es
    → collect c ignore_file ws ≡ ok es
unfolding collect
collect-perm c ignore_file vs ws es p d h =
    let patterns = patterns_of c ignore_file in
    walk-sorted c patterns ws
    ∙ sorted_walk-perm c patterns es p d (sym (walk-sorted c patterns vs) ∙ h)
