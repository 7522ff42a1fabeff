-- ===== src/Ioc/Domains.antt =====
-- MatchDomain of cli/internal/ioc/ioc.go.
use skillledger.Base.{
  ◌-◌, ◌≡◌, sym, ap, ◌∙◌, ◌↔◌, ◌⊎◌, inl, inr, true, some, List, [], ◌∷◌, ◌++◌, arith, Bool-cases,
  length, take, drop, length-append, take-append-drop, drop-append, Text, codes, text_eq→≡,
  text_eq_iff, has_suffix, to_lower,
}
use skillledger.Ioc.{DomainEntry, Database, covers, first_match, normal, match_domain}

drop_prefix : (q p : Text) → drop (length (q ++ p) - length p) (q ++ p) ≡ p
drop_prefix q p =
    let n : length (q ++ p) - length p ≡ length q = omega (arith, length-append q p) in
    rw n (drop-append q p)

has_suffix_iff : (p s : Text) → (has_suffix p s ≡ true) ↔ ((q : Text) × (s ≡ q ++ p))
unfolding has_suffix
has_suffix_iff p s = (
  λ h. (
    take (length s - length p) s,
    sym (take-append-drop (length s - length p) s)
        ∙ ap (λ t. take (length s - length p) s ++ t)
            (text_eq→≡ (drop (length s - length p) s) p (ground arith)),
  ),
  λ (q, e). rw e (
      ground (
        arith,
        drop_prefix q p,
        text_eq_iff (drop (length (q ++ p) - length p) (q ++ p)) p,
        length-append q p,
      )),
)

-- The host, without one trailing dot and in lower case, is the entry's domain or lies below it.
abbrev pub Covered : Text → DomainEntry → Type 0
Covered host e =
    (normal host ≡ to_lower e.domain)
    ⊎ ((sub : Text) × (normal host ≡ sub ++ (codes "." ++ to_lower e.domain)))

abbrev pub Listed : Text → List DomainEntry → Type 0
Listed host [] = ⊥
Listed host (e ∷ es) = Covered host e ⊎ Listed host es

covers_iff_Covered :
    (host : Text) (e : DomainEntry) → (covers e (normal host) ≡ true) ↔ Covered host e
unfolding covers
covers_iff_Covered host e = ground (
  arith,
  text_eq_iff (normal host) (to_lower e.domain),
  has_suffix_iff (codes "." ++ to_lower e.domain) (normal host),
)

first_match_iff_Listed :
    (host : Text) (es : List DomainEntry)
    → ((e : DomainEntry) × (first_match (normal host) es ≡ some e)) ↔ Listed host es
unfolding first_match
first_match_iff_Listed host [] = (λ (e, h). absurd cc, λ l. absurd l)
first_match_iff_Listed host (e ∷ es) = elim (Bool-cases (covers e (normal host))) [
  | inl c ↦ (λ h. inl ((covers_iff_Covered host e).0 c), λ l. (e, rw (first_match, c)))
  | inr c ↦ (
    λ (x, h). inr ((first_match_iff_Listed host es).0 (x, ground arith)),
    λ l. elim l [
      | inl covered ↦ absurd (ground (arith, covers_iff_Covered host e))
      | inr later ↦
          let (x, h) = (first_match_iff_Listed host es).1 later in (x, rw (first_match, c) h)
    ],
  )
]

-- MatchDomain finds an entry exactly if the host is the domain of some entry or a subdomain of it,
-- upper or lower case and one trailing dot aside; a host that only ends in the same letters is not
-- found.
pub match_domain_iff_Listed :
    (host : Text) (d : Database)
    → ((e : DomainEntry) × (match_domain host d ≡ some e)) ↔ Listed host d.domain_entries
unfolding match_domain
match_domain_iff_Listed host d = first_match_iff_Listed host d.domain_entries
