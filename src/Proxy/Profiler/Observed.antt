-- ===== src/Proxy/Profiler/Observed.antt =====
-- What Observe of proxy/profiler.go puts into the sets of a profile.
use skillledger.Base.{
  ◌≤◌, ◌<◌, ◌≡◌, ◌≢◌, ◌⊎◌, inl, inr, true, ◌&&◌, not, List, [], ◌∷◌, arith, ltb, ltb→lt, Bool-cases,
  length, All, All-map, Text, text_eq, text_eq→≡, text_eq_iff,
}
use skillledger.Proxy.TwoPass.{mem_text}
use skillledger.Proxy.Profiler.{insert_capped}

-- All of them inserted, the first one first.
unfoldable pub insert_all : List Text → List Text → List Text
unfolding insert_capped
insert_all [] set_ = set_
insert_all (x ∷ xs) set_ = insert_all xs (insert_capped x set_)

insert_capped-length :
    (x : Text) (set_ : List Text)
    → (length set_ ≤ length (insert_capped x set_))
      × (length set_ ≤ 1000 → length (insert_capped x set_) ≤ 1000)
unfolding insert_capped
insert_capped-length x set_ = ground arith

pub insert_all-length :
    (xs set_ : List Text)
    → (length set_ ≤ length (insert_all xs set_))
      × (length set_ ≤ 1000 → length (insert_all xs set_) ≤ 1000)
unfolding insert_all
insert_all-length [] set_ = (omega arith, λ h. h)
insert_all-length (x ∷ xs) set_ =
    let (a, b) = insert_capped-length x set_ in
    let (c, d) = insert_all-length xs (insert_capped x set_) in (omega arith, λ h. d (b h))

insert_capped-keeps :
    (t x : Text) (set_ : List Text)
    → mem_text t set_ ≡ true
    → mem_text t (insert_capped x set_) ≡ true
unfolding insert_capped mem_text
insert_capped-keeps t x set_ h = ground arith

insert_capped-enters :
    (x : Text) (set_ : List Text)
    → x ≢ []
    → length set_ < 1000
    → mem_text x (insert_capped x set_) ≡ true
unfolding insert_capped mem_text
insert_capped-enters x set_ ne lt = ground (arith, text_eq_iff x [], text_eq_iff x x)

insert_all-keeps :
    (t : Text) (xs set_ : List Text)
    → mem_text t set_ ≡ true
    → mem_text t (insert_all xs set_) ≡ true
unfolding insert_all
insert_all-keeps t [] set_ h = h
insert_all-keeps t (x ∷ xs) set_ h =
    insert_all-keeps t xs (insert_capped x set_) (insert_capped-keeps t x set_ h)

insert_capped-All {κ} :
    (P : Text → Type κ) (x : Text) (set_ : List Text)
    → (x ≢ [] → P x)
    → All P set_
    → All P (insert_capped x set_)
unfolding insert_capped
insert_capped-All P x set_ new_ old =
    elim (Bool-cases (not (text_eq x []) && ltb (length set_) 1000 && not (mem_text x set_))) [
      | inl e ↦ rw (insert_capped, e) (new_ (ground (arith, text_eq_iff x [])), old)
      | inr e ↦ rw (insert_capped, e) old
    ]

insert_all-All {κ} :
    (P : Text → Type κ) (xs set_ : List Text)
    → All (λ x. x ≢ [] → P x) xs
    → All P set_
    → All P (insert_all xs set_)
unfolding insert_all
insert_all-All P [] set_ new_ old = old
insert_all-All P (x ∷ xs) set_ (here, later) old =
    insert_all-All P xs (insert_capped x set_) later (insert_capped-All P x set_ here old)

-- The set is full, or each of these texts is empty or in it.
abbrev pub Complete : List Text → List Text → Type 0
Complete xs listed = (length listed ≡ 1000) ⊎ All (λ t. (t ≡ []) ⊎ (mem_text t listed ≡ true)) xs

Complete-cons :
    (x : Text) (xs listed : List Text)
    → (length listed ≡ 1000) ⊎ ((x ≡ []) ⊎ (mem_text x listed ≡ true))
    → Complete xs listed
    → Complete (x ∷ xs) listed
Complete-cons x xs listed (inl full) rest = inl full
Complete-cons x xs listed (inr here) (inl full) = inl full
Complete-cons x xs listed (inr here) (inr later) = inr (here, later)

insert_all-first :
    (x : Text) (xs set_ : List Text)
    → length set_ ≤ 1000
    → let listed = insert_all xs (insert_capped x set_) in
      (length listed ≡ 1000) ⊎ ((x ≡ []) ⊎ (mem_text x listed ≡ true))
insert_all-first x xs set_ le =
    let (a, b) = insert_capped-length x set_ in
    let (c, d) = insert_all-length xs (insert_capped x set_) in
    elim (Bool-cases (ltb (length set_) 1000)) [
      | inr full ↦ inl (ground (arith, d (b le)))
      | inl free ↦ elim (Bool-cases (text_eq x [])) [
        | inl empty ↦ inr (inl (text_eq→≡ x [] empty))
        | inr named ↦ inr (
            inr (
              insert_all-keeps x xs (insert_capped x set_)
                (insert_capped-enters x set_ (ground (arith, text_eq_iff x [])) (ltb→lt _ _ free))))
      ]
    ]

pub insert_all-Complete :
    (xs set_ : List Text) → length set_ ≤ 1000 → Complete xs (insert_all xs set_)
unfolding insert_all
insert_all-Complete [] set_ le = inr tt
insert_all-Complete (x ∷ xs) set_ le =
    Complete-cons x xs _ (insert_all-first x xs set_ le)
      (insert_all-Complete xs (insert_capped x set_) ((insert_capped-length x set_).1 le))

mem_self : (xs : List Text) → All (λ x. mem_text x xs ≡ true) xs
unfolding mem_text
mem_self [] = tt
mem_self (x ∷ xs) =
    (ground (arith, text_eq_iff x x), All-map (λ y h. ground (arith, h)) xs (mem_self xs))

-- Each of these texts is in the first list, and not empty.
abbrev pub Sound : List Text → List Text → Type 0
Sound xs = All (λ t. (mem_text t xs ≡ true) × (t ≢ []))

pub insert_all-Sound : (xs : List Text) → Sound xs (insert_all xs [])
insert_all-Sound xs =
    insert_all-All (λ t. (mem_text t xs ≡ true) × (t ≢ [])) xs []
      (All-map (λ x h ne. (h, ne)) xs (mem_self xs)) tt
