-- ===== src/Policy/Dsl/Operators.antt =====
-- Which operator expressions parseOperator of cli/internal/policy/dsl/compiler.go accepts.
use skillledger.Base.{
  ℕ, suc, ◌-◌, ◌≡◌, refl, sym, ap, ◌∙◌, ◌≢◌, ◌↔◌, inl, inr, true, false, ◌&&◌, none, some, [], ◌∷◌,
  ◌++◌, arith, leb, nat_beq, nat_beq_iff, Bool-cases, Option-cases, length, take, drop,
  length-append, take-append-drop, drop-append, All, Text, codes, text_eq, text_eq→≡, text_eq_iff,
  has_prefix, has_suffix, ok,
}
use mathlib.Core.Path.{subst}
use skillledger.Policy.Dsl.{Fmt, disallowed, cut_at}
use skillledger.Policy.Dsl.Compile.{quoted_argument, parse_operator}

-- The byte does not occur in the text.
abbrev pub Without : ℕ → Text → Type 0
Without sep = All (λ c. c ≢ sep)

cut-injective : {a b : Text × Text} → some a ≡ some b → a ≡ b
cut-injective h = cc

text-injective : {a b : Text} → some a ≡ some b → a ≡ b
text-injective h = cc

-- Where a text is cut.
abbrev CutAt : ℕ → Text → Text × Text → Type 0
CutAt sep s (before, after) = (s ≡ before ++ (sep ∷ after)) × Without sep before

cut_at-CutAt :
    (sep : ℕ) (s : Text) (parts : Text × Text) → cut_at sep s ≡ some parts → CutAt sep s parts
unfolding cut_at
cut_at-CutAt sep [] parts h = absurd cc
cut_at-CutAt sep (c ∷ cs) parts h = elim (Bool-cases (nat_beq c sep)) [
  | inl e ↦
      let here : cut_at sep (c ∷ cs) ≡ some ([], cs) = rw (cut_at, e) in
      subst (CutAt sep (c ∷ cs)) (cut-injective (sym here ∙ h))
        (ap (λ d. d ∷ cs) ((nat_beq_iff c sep).0 e), tt)
  | inr e ↦ elim (Option-cases (cut_at sep cs)) [
    | inl nowhere ↦ let nothing : cut_at sep (c ∷ cs) ≡ none = rw (cut_at, e, nowhere) in absurd cc
    | inr ((before, after), later) ↦
        let there : cut_at sep (c ∷ cs) ≡ some (c ∷ before, after) = rw (cut_at, e, later) in
        let (whole, none_before) = cut_at-CutAt sep cs (before, after) later in
        subst (CutAt sep (c ∷ cs)) (cut-injective (sym there ∙ h))
          (ap (λ ds. c ∷ ds) whole, (ground (arith, nat_beq_iff c sep), none_before))
  ]
]

CutAt-cut_at :
    (sep : ℕ) (before after : Text)
    → Without sep before
    → cut_at sep (before ++ (sep ∷ after)) ≡ some (before, after)
unfolding cut_at
CutAt-cut_at sep [] after w = rw (cut_at, (nat_beq_iff sep sep).1 refl)
CutAt-cut_at sep (c ∷ cs) after (ne, w) =
    let other : nat_beq c sep ≡ false = ground (arith, nat_beq_iff c sep) in
    rw (cut_at, other, CutAt-cut_at sep cs after w)

take-append : (xs ys : Text) → take (length xs) (xs ++ ys) ≡ xs
take-append [] ys = refl
take-append (x ∷ xs) ys = ap (λ zs. x ∷ zs) (take-append xs ys)

abbrev closing : Text
closing = codes "\")"

quoted_argument-made : (arg : Text) → quoted_argument (34 ∷ (arg ++ closing)) ≡ some arg
unfolding quoted_argument has_prefix has_suffix text_eq
quoted_argument-made arg =
    let n = length-append arg closing in
    let long : leb 3 (suc (length (arg ++ closing))) ≡ true = ground (arith, n) in
    let room : leb 2 (suc (length (arg ++ closing))) ≡ true = ground (arith, n) in
    let before : suc (length (arg ++ closing)) - 2 ≡ suc (length arg) = omega (arith, n) in
    let inner : suc (length (arg ++ closing)) - 3 ≡ length arg = omega (arith, n) in
    rw
      (
        quoted_argument,
        long,
        has_suffix,
        room,
        before,
        inner,
        drop-append arg closing,
        take-append arg closing,
      )
      refl

quoted_end :
    (c : ℕ) (r : Text)
    → (leb 3 (length (c ∷ r)) && has_prefix (codes "\"") (c ∷ r) && has_suffix closing (c ∷ r))
      ≡ true
    → drop (length r - 2) r ≡ closing
unfolding has_prefix has_suffix
quoted_end c r e =
    let ends : drop (suc (length r) - 2) (c ∷ r) ≡ closing =
      text_eq→≡ (drop (suc (length r) - 2) (c ∷ r)) closing (ground (arith, e)) in
    let n : suc (length r) - 2 ≡ suc (length r - 2) = ground (arith, e) in
    ap (λ k. drop k (c ∷ r)) (sym n) ∙ ends

quoted_argument-only :
    (rest arg : Text) → quoted_argument rest ≡ some arg → rest ≡ 34 ∷ (arg ++ closing)
unfolding quoted_argument has_prefix has_suffix
quoted_argument-only [] arg h = absurd cc
quoted_argument-only (c ∷ r) arg h =
    elim (Bool-cases
      (leb 3 (length (c ∷ r)) && has_prefix (codes "\"") (c ∷ r) && has_suffix closing (c ∷ r))) [
        | inr e ↦
            let nothing : quoted_argument (c ∷ r) ≡ none = rw (quoted_argument, e) in absurd cc
        | inl e ↦
            let quote_first : c ≡ 34 = ground (arith, e, nat_beq_iff 34 c) in
            let end_ : drop (length r - 2) r ≡ closing = quoted_end c r e in
            let n : suc (length r) - 3 ≡ length r - 2 = omega arith in
            let direct : quoted_argument (c ∷ r) ≡ some (take (length r - 2) r) =
              rw (quoted_argument, e) (ap (λ k. some (take k r)) n) in
            let inner = text-injective (sym direct ∙ h) in
            ap (λ d. d ∷ r) quote_first
            ∙ ap (λ t. 34 ∷ t)
                (sym (take-append-drop (length r - 2) r)
                  ∙ (ap (λ t. t ++ drop (length r - 2) r) inner ∙ ap (λ d. arg ++ d) end_))
      ]

-- The form that parseOperator expects.
abbrev OperatorForm : Text → Text × Text → Type 0
OperatorForm expr (op, arg) =
    (expr ≡ op ++ (40 ∷ 34 ∷ (arg ++ closing)))
    × Without 40 op
    × (arg ≢ [])
    × (disallowed arg ≡ false)

ok-injective : {a b : Text × Text} → ok a ≡ ok b → a ≡ b
ok-injective h = cc

module _ (fmt : Fmt) where
  parse_operator-made :
      (op arg : Text)
      → Without 40 op
      → arg ≢ []
      → disallowed arg ≡ false
      → parse_operator fmt (op ++ (40 ∷ 34 ∷ (arg ++ closing))) ≡ ok (op, arg)
  unfolding parse_operator
  parse_operator-made op arg w ne safe =
      let named : text_eq arg [] ≡ false = ground (arith, text_eq_iff arg []) in
      rw (
        parse_operator,
        CutAt-cut_at 40 op (34 ∷ (arg ++ closing)) w,
        quoted_argument-made arg,
        named,
        safe,
      )

  -- The argument of an accepted expression, once its quotes are found.
  parse_operator-found :
      (expr op rest arg : Text) (parts : Text × Text)
      → cut_at 40 expr ≡ some (op, rest)
      → quoted_argument rest ≡ some arg
      → parse_operator fmt expr ≡ ok parts
      → OperatorForm expr parts
  unfolding parse_operator
  parse_operator-found expr op rest arg parts cut found h =
      let (whole, w) = cut_at-CutAt 40 expr (op, rest) cut in
      let shape : expr ≡ op ++ (40 ∷ 34 ∷ (arg ++ closing)) =
        whole ∙ ap (λ t. op ++ (40 ∷ t)) (quoted_argument-only rest arg found) in
      elim (Bool-cases (text_eq arg [])) [
        | inl e ↦ absurd (ground arith)
        | inr named ↦ elim (Bool-cases (disallowed arg)) [
          | inl e ↦ absurd (ground arith)
          | inr safe ↦
              let direct : parse_operator fmt expr ≡ ok (op, arg) =
                rw (parse_operator, cut, found, named, safe) in
              subst (OperatorForm expr) (ok-injective (sym direct ∙ h))
                (shape, w, ground (arith, text_eq_iff arg []), safe)
        ]
      ]

  parse_operator-form :
      (expr : Text) (parts : Text × Text)
      → parse_operator fmt expr ≡ ok parts
      → OperatorForm expr parts
  unfolding parse_operator
  parse_operator-form expr parts h = elim (Option-cases (cut_at 40 expr)) [
    | inl e ↦ absurd (ground arith)
    | inr ((op, rest), cut) ↦ elim (Option-cases (quoted_argument rest)) [
      | inl e ↦ absurd (ground arith)
      | inr (arg, found) ↦ parse_operator-found expr op rest arg parts cut found h
    ]
  ]

-- parseOperator accepts exactly the texts of the form op("arg"), where op has no parenthesis and arg
-- is not empty and has no quote, backslash, tab or line end; and it gives back op and arg.
pub parse_operator_iff :
    (fmt : Fmt) (expr op arg : Text)
    → (parse_operator fmt expr ≡ ok (op, arg)) ↔ (
        (expr ≡ op ++ (40 ∷ 34 ∷ (arg ++ codes "\")")))
        × Without 40 op
        × (arg ≢ [])
        × (disallowed arg ≡ false))
parse_operator_iff fmt expr op arg = (
  parse_operator-form fmt expr (op, arg),
  λ (shape, w, ne, safe). ap (parse_operator fmt) shape ∙ parse_operator-made fmt op arg w ne safe,
)
