-- ===== src/Policy/Dsl/Safe.antt =====
-- What parseRuntimeExpr of cli/internal/policy/dsl/compiler.go accepts.
use skillledger.Base.{
  ◌≡◌, sym, ap, ◌∙◌, ◌≢◌, ◌⊎◌, inl, inr, true, false, none, List, [], ◌∷◌, ◌++◌, arith, Bool-cases,
  Option-cases, All, Text, codes, text_eq, text_eq→≡, text_eq_iff, Outcome, ok, err, ◌>>=◌, wrap,
  Outcome-cases, >>=-ok, wrap-ok, trim_space,
}
use mathlib.Core.Path.{subst}
use skillledger.Policy.Dsl.{Fmt, disallowed, cut_at}
use skillledger.Policy.Dsl.Compile.{first_disallowed}
use skillledger.Policy.Dsl.Runtime.{
  RuntimeExpr, allowed_field, allowed_op, enclosed, contains_argument, check_items, array_argument,
  parse_argument, parse_rest, parse_trimmed, parse_runtime_expr, runtime_expr_to_rego, compile_expr,
}

first_disallowed-none :
    (xs : List Text) → first_disallowed xs ≡ none → All (λ x. disallowed x ≡ false) xs
unfolding first_disallowed
first_disallowed-none [] h = tt
first_disallowed-none (x ∷ xs) h = elim (Bool-cases (disallowed x)) [
  | inl e ↦ absurd (ground arith)
  | inr e ↦ (e, first_disallowed-none xs (ground arith))
]

module _ (fmt : Fmt) (unmarshal : Text → Outcome (List Text)) where
  -- The argument decodes to items, one at least, that cannot end a Rego string.
  abbrev pub SafeItems : Text → Type 0
  SafeItems arg =
      (items : List Text) × (unmarshal arg ≡ ok items)
      × (items ≢ [])
      × All (λ x. disallowed x ≡ false) items

  check_items-safe :
      (op arg a : Text) (items : List Text)
      → check_items fmt op arg items ≡ ok a
      → (arg ≡ a) × (items ≢ []) × All (λ x. disallowed x ≡ false) items
  unfolding check_items
  check_items-safe op arg a [] h = absurd cc
  check_items-safe op arg a (x ∷ xs) h = elim (Option-cases (first_disallowed (x ∷ xs))) [
    | inl e ↦ (ground arith, λ empty. absurd cc, first_disallowed-none (x ∷ xs) e)
    | inr (y, e) ↦ absurd (ground arith)
  ]

  array_argument-safe :
      (op arg a : Text) → array_argument fmt unmarshal op arg ≡ ok a → (arg ≡ a) × SafeItems arg
  unfolding array_argument
  array_argument-safe op arg a h = elim (Bool-cases (enclosed (codes "[") (codes "]") arg)) [
    | inr e ↦ absurd (ground arith)
    | inl e ↦
        let what = codes "invalid JSON array in " ++ op in
        let direct : array_argument fmt unmarshal op arg
            ≡ (wrap what (unmarshal arg) >>= λ items. check_items fmt op arg items) =
          rw (array_argument, e) in
        let (items, decoded, checked) = >>=-ok (wrap what (unmarshal arg)) _ (sym direct ∙ h) in
        let (same, nonempty, safe) = check_items-safe op arg a items checked in
        (same, (items, wrap-ok what (unmarshal arg) decoded, nonempty, safe))
  ]

  contains_argument-safe :
      (expr arg a : Text)
      → contains_argument fmt expr arg ≡ ok a
      → (a ≢ []) × (disallowed a ≡ false)
  unfolding contains_argument
  contains_argument-safe expr arg a h = ground (arith, text_eq_iff a [])

  -- The argument of contains is neither empty nor able to end a Rego string; that of any and except is an array of such
  -- items.
  abbrev pub SafeArgument : RuntimeExpr → Type 0
  SafeArgument e =
      ((e.op ≡ codes "contains") × (e.arg ≢ []) × (disallowed e.arg ≡ false))
      ⊎ (((e.op ≡ codes "any") ⊎ (e.op ≡ codes "except")) × SafeItems e.arg)

  allowed_op-cases :
      (op : Text)
      → allowed_op op ≡ true
      → text_eq op (codes "contains") ≡ false
      → (op ≡ codes "any") ⊎ (op ≡ codes "except")
  unfolding allowed_op
  allowed_op-cases op h other = elim (Bool-cases (text_eq op (codes "any"))) [
    | inl e ↦ inl (text_eq→≡ op _ e)
    | inr e ↦ inr (text_eq→≡ op _ (ground arith))
  ]

  parse_argument-safe :
      (expr field op arg a : Text)
      → allowed_op op ≡ true
      → parse_argument fmt unmarshal expr op arg ≡ ok a
      → SafeArgument (record { field = field; op = op; arg = a })
  unfolding parse_argument
  parse_argument-safe expr field op arg a allowed h =
      elim (Bool-cases (text_eq op (codes "contains"))) [
        | inl e ↦
            let direct : parse_argument fmt unmarshal expr op arg ≡ contains_argument fmt expr arg =
              rw (parse_argument, e) in
            let (named, safe) = contains_argument-safe expr arg a (sym direct ∙ h) in
            inl (text_eq→≡ op _ e, named, safe)
        | inr e ↦
            let direct : parse_argument fmt unmarshal expr op arg
                ≡ array_argument fmt unmarshal op arg =
              rw (parse_argument, e) in
            let (same, items) = array_argument-safe op arg a (sym direct ∙ h) in
            inr (allowed_op-cases op allowed e, subst SafeItems same items)
      ]

  expr-injective : {a b : RuntimeExpr} → ok a ≡ ok b → a ≡ b
  expr-injective h = cc

  -- What holds of a parsed expression.
  abbrev pub ParsedExpr : RuntimeExpr → Type 0
  ParsedExpr e = (allowed_field e.field ≡ true) × SafeArgument e

  parse_rest-ParsedExpr :
      (expr field rest : Text) (e : RuntimeExpr)
      → allowed_field field ≡ true
      → parse_rest fmt unmarshal expr field rest ≡ ok e
      → ParsedExpr e
  unfolding parse_rest
  parse_rest-ParsedExpr expr field rest e known h = elim (Option-cases (cut_at 32 rest)) [
    | inl nowhere ↦ absurd (ground arith)
    | inr ((op, arg), cut) ↦ elim (Bool-cases (allowed_op op)) [
      | inr other ↦ absurd (ground arith)
      | inl allowed ↦
          let parsed = parse_argument fmt unmarshal expr op (trim_space arg) in
          let direct : parse_rest fmt unmarshal expr field rest
              ≡ (parsed >>= λ a. ok (record { field = field; op = op; arg = a })) =
            rw (parse_rest, cut, allowed) in
          let (a, found, same) = >>=-ok parsed _ (sym direct ∙ h) in
          subst ParsedExpr (expr-injective same)
            (known, parse_argument-safe expr field op (trim_space arg) a allowed found)
    ]
  ]

  parse_trimmed-ParsedExpr :
      (expr : Text) (e : RuntimeExpr) → parse_trimmed fmt unmarshal expr ≡ ok e → ParsedExpr e
  unfolding parse_trimmed
  parse_trimmed-ParsedExpr [] e h = absurd cc
  parse_trimmed-ParsedExpr (c ∷ cs) e h = elim (Option-cases (cut_at 32 (c ∷ cs))) [
    | inl nowhere ↦ absurd (ground arith)
    | inr ((field, rest), cut) ↦ elim (Bool-cases (allowed_field field)) [
      | inr other ↦ absurd (ground arith)
      | inl known ↦
          let direct : parse_trimmed fmt unmarshal (c ∷ cs)
              ≡ parse_rest fmt unmarshal (c ∷ cs) field (trim_space rest) =
            rw (parse_trimmed, cut, known) in
          parse_rest-ParsedExpr (c ∷ cs) field (trim_space rest) e known (sym direct ∙ h)
    ]
  ]

  no_error :
      (e : RuntimeExpr)
      → ((msg : Text) → runtime_expr_to_rego fmt unmarshal e ≡ err msg → ⊥)
      → (c : Text) × (runtime_expr_to_rego fmt unmarshal e ≡ ok c)
  no_error e never = elim (Outcome-cases (runtime_expr_to_rego fmt unmarshal e)) [
    | inl (c, h) ↦ (c, h)
    | inr (msg, h) ↦ absurd (never msg h)
  ]

  -- A parsed expression has a condition: the errors of runtimeExprToRego do not arise.
  runtime_expr_to_rego-total :
      (e : RuntimeExpr)
      → SafeArgument e
      → (c : Text) × (runtime_expr_to_rego fmt unmarshal e ≡ ok c)
  unfolding runtime_expr_to_rego text_eq
  runtime_expr_to_rego-total e (inl (op, named, safe)) =
      let t = (text_eq_iff e.op (codes "contains")).1 op in
      no_error e (λ msg h. absurd (ground (arith, t)))
  runtime_expr_to_rego-total e (inr (inl op, (items, decoded, nonempty, safe))) =
      let t : text_eq e.op (codes "contains") ≡ false = ap (λ o. text_eq o (codes "contains")) op in
      let u = (text_eq_iff e.op (codes "any")).1 op in
      no_error e (λ msg h. absurd (ground (arith, t, u, decoded)))
  runtime_expr_to_rego-total e (inr (inr op, (items, decoded, nonempty, safe))) =
      let t : text_eq e.op (codes "contains") ≡ false = ap (λ o. text_eq o (codes "contains")) op in
      let u : text_eq e.op (codes "any") ≡ false = ap (λ o. text_eq o (codes "any")) op in
      let v = (text_eq_iff e.op (codes "except")).1 op in
      no_error e (λ msg h. absurd (ground (arith, t, u, v, decoded)))

  -- An expression that parses compiles, so the errors of the second stage do not arise; and it is
  -- about an allowed field, with an argument whose texts are not able to end a Rego string.
  pub parse_runtime_expr-compiles :
      (expr : Text) (e : RuntimeExpr)
      → parse_runtime_expr fmt unmarshal expr ≡ ok e
      → ((c : Text) × (compile_expr fmt unmarshal expr ≡ ok c))
        × (allowed_field e.field ≡ true)
        × SafeArgument e
  unfolding parse_runtime_expr compile_expr
  parse_runtime_expr-compiles expr e h =
      let (known, safe) = parse_trimmed-ParsedExpr (trim_space expr) e h in
      let (c, compiled) = runtime_expr_to_rego-total e safe in
      ((c, ap (λ o. o >>= runtime_expr_to_rego fmt unmarshal) h ∙ compiled), known, safe)
