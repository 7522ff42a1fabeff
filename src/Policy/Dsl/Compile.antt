-- ===== src/Policy/Dsl/Compile.antt =====
-- Compile of cli/internal/policy/dsl/compiler.go: capability rules to Rego.
use skillledger.Base.{
  ℕ, ◌+◌, ◌-◌, Bool, true, false, ◌&&◌, ◌||◌, not, Option, none, some, List, [], ◌∷◌, ◌++◌, map,
  leb, nat_beq, if◌then◌else◌, nat_eq, length, take, drop, Text, codes, text_eq, text_eq_inst, join,
  has_prefix, has_suffix, Outcome, ok, err, ◌>>=◌, sort_strings, Dict, lookup, keys,
}
use skillledger.Policy.Dsl.{Rule, Policy, Fmt, disallowed, cut_at, at_index}

abbrev pub lower : ℕ → Bool
lower c = leb 97 c && leb c 122

unfoldable pub identifier_rest : Text → Bool
identifier_rest [] = true
identifier_rest (c ∷ cs) = (lower c || (leb 48 c && leb c 57) || nat_beq c 95) && identifier_rest cs

-- validCategory
unfoldable pub valid_category : Text → Bool
unfolding identifier_rest
valid_category [] = false
valid_category (c ∷ cs) = lower c && identifier_rest cs

abbrev invalid_operator : Fmt → Text → Text → Outcome (Text × Text)
invalid_operator fmt expr why = err (
    codes "invalid operator expression: " ++ (fmt.quote expr ++ (codes " (" ++ (why ++ codes ")"))))

-- The tests on the text after the opening parenthesis: a quote in front, a quote and a parenthesis
-- at the end, and room for both.
unfoldable pub quoted_argument : Text → Option Text
unfolding has_prefix has_suffix
quoted_argument rest =
    if leb 3 (length rest) && has_prefix (codes "\"") rest && has_suffix (codes "\")") rest
    then some (take (length rest - 3) (drop 1 rest))
    else none

-- parseOperator
unfoldable pub parse_operator : Fmt → Text → Outcome (Text × Text)
unfolding cut_at quoted_argument disallowed
parse_operator fmt expr = elim (cut_at 40 expr) [
  | none ↦ invalid_operator fmt expr (codes "missing opening parenthesis")
  | some (op, rest) ↦ elim (quoted_argument rest) [
    | none ↦ invalid_operator fmt expr (codes "expected format: operator(\"arg\")")
    | some arg ↦
        if text_eq arg []
        then invalid_operator fmt expr (codes "empty argument")
        else if disallowed arg
        then err (
            codes "invalid operator argument: "
            ++ (fmt.quote arg ++ codes " (contains disallowed characters)"))
        else ok (op, arg)
  ]
]

-- operatorToRego
unfoldable pub operator_to_rego : Fmt → Text → Text → Outcome Text
operator_to_rego fmt op arg =
    if text_eq op (codes "contains")
    then ok (codes "contains(cap, " ++ (fmt.quote arg ++ codes ")"))
    else if text_eq op (codes "any")
    then ok (codes "startswith(cap, " ++ (fmt.quote arg ++ codes ")"))
    else err (codes "unknown operator: " ++ (fmt.quote op ++ codes " (supported: contains, any)"))

-- The message in a comment: quotes escaped, line ends to spaces.
unfoldable pub escaped_message : Text → Text
escaped_message [] = []
escaped_message (c ∷ cs) =
    let rest = escaped_message cs in
    if nat_beq c 34
    then 92 ∷ 34 ∷ rest
    else if nat_beq c 10 || nat_beq c 13
    then 32 ∷ rest
    else c ∷ rest

unfoldable pub first_disallowed : List Text → Option Text
unfolding disallowed
first_disallowed [] = none
first_disallowed (x ∷ xs) = let rest = first_disallowed xs in if disallowed x then some x else rest

abbrev pub quoted_list : Fmt → List Text → Text
quoted_list fmt xs = join (codes ", ") (map fmt.quote xs)

-- The line for the exceptions of a rule.
unfoldable pub except_line : Fmt → List Text → Outcome Text
unfolding first_disallowed join
except_line fmt [] = ok []
except_line fmt (x ∷ xs) = elim (first_disallowed (x ∷ xs)) [
  | some ex ↦ err (
      codes "invalid except value: " ++ (fmt.quote ex ++ codes " (contains disallowed characters)"))
  | none ↦ ok (codes "    not cap in {" ++ (quoted_list fmt (x ∷ xs) ++ (codes "}" ++ 10 ∷ [])))
]

-- The expression of a rule and its rule set.
unfoldable pub rule_expr : Rule → Text × Text
rule_expr r = if text_eq r.warn [] then (r.deny, codes "deny") else (r.warn, codes "warnings")

abbrev line : Text → Text
line s = s ++ 10 ∷ []

abbrev rule_text : Fmt → Text → Text → Text → Text → Rule → Text
rule_text fmt category rule_set condition exceptions r =
    line (codes "# Rule: " ++ (category ++ (codes " - " ++ escaped_message r.message)))
    ++ (line (rule_set ++ codes " contains msg if {")
        ++ (line (codes "    some cap in input.capabilities." ++ category)
            ++ (line (codes "    " ++ condition)
                ++ (exceptions
                    ++ (line (codes "    msg := " ++ fmt.quote r.message)
                        ++ (line (codes "}") ++ line []))))))

-- CompileError.Error, of the error of an outcome.
unfoldable pub compile_error {ℓ} : {A : Type ℓ} → Fmt → Text → ℕ → Outcome A → Outcome A
compile_error fmt category i (ok a) = ok a
compile_error fmt category i (err e) = err (at_index fmt (codes "rule " ++ category) i e)

-- compileRule, with what it writes; what it wrote before an error is dropped by Compile.
unfoldable pub compile_rule : Fmt → Text → ℕ → Rule → Outcome Text
unfolding rule_expr parse_operator operator_to_rego except_line escaped_message
compile_rule fmt category i r = compile_error fmt category i (do
  (op, arg) ← parse_operator fmt (rule_expr r).0
  condition ← operator_to_rego fmt op arg
  exceptions ← except_line fmt r.except
  ok (rule_text fmt category (rule_expr r).1 condition exceptions r))

unfoldable pub compile_rules : Fmt → Text → ℕ → List Rule → Outcome Text
unfolding compile_rule
compile_rules fmt category i [] = ok []
compile_rules fmt category i (r ∷ rs) = do
  text ← compile_rule fmt category i r
  rest ← compile_rules fmt category (i + 1) rs
  ok (text ++ rest)

abbrev pub rules_at : Text → Dict (List Rule) → List Rule
rules_at category rules = elim (lookup category rules) [ none ↦ [] | some rs ↦ rs ]

unfoldable pub compile_categories : Fmt → Dict (List Rule) → List Text → Outcome Text
unfolding valid_category compile_rules lookup
compile_categories fmt rules [] = ok []
compile_categories fmt rules (category ∷ categories) =
    if not (valid_category category)
    then err (
        codes "invalid category name "
        ++ (fmt.quote category ++ codes ": must match [a-z][a-z0-9_]*"))
    else (do
      text ← compile_rules fmt category 0 (rules_at category rules)
      rest ← compile_categories fmt rules categories
      ok (text ++ rest))

abbrev header : Text
header =
    line (codes "package skillledger.policy")
    ++ (line []
        ++ (line (codes "import rego.v1")
            ++ (line [] ++ (line (codes "default decision := \"allow\"") ++ line []))))

abbrev footer : Text
footer =
    line (codes "decision := \"deny\" if count(deny) > 0")
    ++ (line []
        ++ (line (codes "decision := \"warn\" if {")
            ++ (line (codes "    count(deny) == 0")
                ++ (line (codes "    count(warnings) > 0") ++ line (codes "}")))))

-- Compile; `none` is a nil policy.
unfoldable pub compile : Fmt → Option Policy → Outcome Text
unfolding compile_categories sort_strings keys
compile fmt none = err (codes "policy is nil")
compile fmt (some p) = if nat_beq (length p.rules) 0 then err (codes "policy has no rules") else (do
  text ← compile_categories fmt p.rules (sort_strings (keys p.rules))
  ok (header ++ (text ++ footer)))
