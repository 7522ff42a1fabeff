-- ===== src/Proxy/Profiler/Drafts.antt =====
-- The draft manifests of proxy/profiler.go against the actions that were observed.
use skillledger.Base.{
  suc, ◌≤◌, ◌≡◌, refl, ap, ◌∙◌, ◌≢◌, inl, inr, true, ◌||◌, List, [], ◌∷◌, arith, Bool-cases, length,
  All, All-map, Text, text_eq, text_leb, insert_sorted, sort_strings,
}
use skillledger.Proxy.TwoPass.{mem_text}
use skillledger.Proxy.Profiler.Observed.{
  insert_all, insert_all-length, Sound, Complete, insert_all-Sound, insert_all-Complete,
}

insert_sorted-length : (x : Text) (ys : List Text) → length (insert_sorted x ys) ≡ suc (length ys)
unfolding insert_sorted
insert_sorted-length x [] = refl
insert_sorted-length x (y ∷ ys) = ground (arith, insert_sorted-length x ys)

sort_strings-length : (xs : List Text) → length (sort_strings xs) ≡ length xs
unfolding sort_strings
sort_strings-length [] = refl
sort_strings-length (x ∷ xs) =
    omega (arith, insert_sorted-length x (sort_strings xs), sort_strings-length xs)

insert_sorted-mem :
    (t x : Text) (ys : List Text) → mem_text t (insert_sorted x ys) ≡ (text_eq x t || mem_text t ys)
unfolding insert_sorted mem_text
insert_sorted-mem t x [] = refl
insert_sorted-mem t x (y ∷ ys) = ground (arith, insert_sorted-mem t x ys)

sort_strings-mem : (t : Text) (xs : List Text) → mem_text t (sort_strings xs) ≡ mem_text t xs
unfolding sort_strings mem_text
sort_strings-mem t [] = refl
sort_strings-mem t (x ∷ xs) =
    insert_sorted-mem t x (sort_strings xs) ∙ ap (λ b. text_eq x t || b) (sort_strings-mem t xs)

insert_sorted-All {κ} :
    (P : Text → Type κ) (x : Text) (ys : List Text) → P x → All P ys → All P (insert_sorted x ys)
unfolding insert_sorted
insert_sorted-All P x [] px h = (px, tt)
insert_sorted-All P x (y ∷ ys) px (py, h) = elim (Bool-cases (text_leb x y)) [
  | inl e ↦ rw (insert_sorted, e) (px, (py, h))
  | inr e ↦ rw (insert_sorted, e) (py, insert_sorted-All P x ys px h)
]

sort_strings-All {κ} : (P : Text → Type κ) (xs : List Text) → All P xs → All P (sort_strings xs)
unfolding sort_strings
sort_strings-All P [] h = tt
sort_strings-All P (x ∷ xs) (px, h) =
    insert_sorted-All P x (sort_strings xs) px (sort_strings-All P xs h)

sort_strings-Complete :
    (xs listed : List Text) → Complete xs listed → Complete xs (sort_strings listed)
sort_strings-Complete xs listed (inl full) = inl (sort_strings-length listed ∙ full)
sort_strings-Complete xs listed (inr h) =
    inr
      (All-map (λ t d. elim d [ inl e ↦ inl e | inr m ↦ inr (sort_strings-mem t listed ∙ m) ]) xs h)

-- The draft's list of what was observed, in this order: at most a thousand of the observed texts,
-- none empty; and all of them, but the empty one, unless there are exactly a thousand.
abbrev pub Drafted : List Text → List Text → Type 0
Drafted observed listed = (length listed ≤ 1000) × Sound observed listed × Complete observed listed

pub insert_all-Drafted : (xs : List Text) → Drafted xs (sort_strings (insert_all xs []))
insert_all-Drafted xs = (
  ground (arith, sort_strings-length (insert_all xs []), (insert_all-length xs []).1 (omega arith)),
  sort_strings-All (λ t. (mem_text t xs ≡ true) × (t ≢ [])) (insert_all xs [])
      (insert_all-Sound xs),
  sort_strings-Complete xs (insert_all xs []) (insert_all-Complete xs [] (omega arith)),
)
