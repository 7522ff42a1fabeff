-- ===== src/Policy/Dsl/Runtime.antt =====
-- CompileRuntime of cli/internal/policy/dsl/compiler.go: runtime rules to Rego.
use skillledger.Base.{
  ℕ, ◌+◌, ◌-◌, Bool, false, ◌&&◌, ◌||◌, not, Option, none, some, List, [], ◌∷◌, ◌++◌, leb, nat_beq,
  if◌then◌else◌, length, take, drop, Text, codes, text_eq, join, has_prefix, has_suffix, Outcome,
  ok, err, ◌>>=◌, wrap, trim_space,
}
use skillledger.Policy.Dsl.{RuntimeRuleSet, Fmt, disallowed, cut_at, at_index}
use skillledger.Policy.Dsl.Compile.{first_disallowed, quoted_list}

-- A parsed runtime expression.
pub record RuntimeExpr : Type 0 where
  pub field : Text
  pub op : Text
  pub arg : Text

-- allowedRuntimeFields
unfoldable pub allowed_field : Text → Bool
allowed_field f =
    text_eq f (codes "destination")
    || text_eq f (codes "tool")
    || text_eq f (codes "resource")
    || text_eq f (codes "method")

unfoldable pub allowed_op : Text → Bool
allowed_op op =
    text_eq op (codes "contains") || text_eq op (codes "any") || text_eq op (codes "except")

abbrev invalid_expression : Fmt → Text → Text
invalid_expression fmt expr =
    codes "invalid expression: "
    ++ (fmt.quote expr ++ codes " (expected: <field> <operator> <argument>)")

-- The first and the last byte, with one for each: len(arg) >= 2.
unfoldable pub enclosed : Text → Text → Text → Bool
unfolding has_prefix has_suffix
enclosed first last arg = leb 2 (length arg) && has_prefix first arg && has_suffix last arg

-- The argument of contains, without its quotes.
unfoldable pub contains_argument : Fmt → Text → Text → Outcome Text
unfolding enclosed disallowed
contains_argument fmt expr arg =
    let inner = take (length arg - 2) (drop 1 arg) in
    if not (enclosed (codes "\"") (codes "\"") arg)
    then err (codes "contains argument must be a quoted string: " ++ arg)
    else if text_eq inner []
    then err (codes "empty argument in expression: " ++ fmt.quote expr)
    else if disallowed inner
    then err (
        codes "invalid argument: "
        ++ (fmt.quote inner ++ codes " (contains disallowed characters)"))
    else ok inner

unfoldable pub check_items : Fmt → Text → Text → List Text → Outcome Text
unfolding first_disallowed
check_items fmt op arg [] = err (codes "empty array in " ++ (op ++ codes " expression"))
check_items fmt op arg (x ∷ xs) = elim (first_disallowed (x ∷ xs)) [
  | some item ↦ err (
      codes "invalid array element: "
      ++ (fmt.quote item ++ codes " (contains disallowed characters)"))
  | none ↦ ok arg
]

-- The argument of any and except: a JSON array of strings, as it is.
unfoldable pub array_argument : Fmt → (Text → Outcome (List Text)) → Text → Text → Outcome Text
unfolding enclosed check_items
array_argument fmt unmarshal op arg =
    if not (enclosed (codes "[") (codes "]") arg)
    then err (op ++ (codes " argument must be a JSON array: " ++ arg))
    else (do
      items ← wrap (codes "invalid JSON array in " ++ op) (unmarshal arg)
      check_items fmt op arg items)

unfoldable pub parse_argument :
    Fmt → (Text → Outcome (List Text)) → Text → Text → Text → Outcome Text
unfolding contains_argument array_argument
parse_argument fmt unmarshal expr op arg =
    if text_eq op (codes "contains")
    then contains_argument fmt expr arg
    else array_argument fmt unmarshal op arg

-- parseRuntimeExpr, after the field: the operator and the argument.
unfoldable pub parse_rest :
    Fmt → (Text → Outcome (List Text)) → Text → Text → Text → Outcome RuntimeExpr
unfolding cut_at trim_space allowed_op parse_argument
parse_rest fmt unmarshal expr field rest = elim (cut_at 32 rest) [
  | none ↦ err (invalid_expression fmt expr)
  | some (op, arg) ↦
      if not (allowed_op op)
      then err (
          codes "unsupported operator: "
          ++ (fmt.quote op ++ codes " (supported: contains, any, except)"))
      else (do
        parsed ← parse_argument fmt unmarshal expr op (trim_space arg)
        ok (record { field = field; op = op; arg = parsed }))
]

unfoldable pub parse_trimmed : Fmt → (Text → Outcome (List Text)) → Text → Outcome RuntimeExpr
unfolding cut_at trim_space allowed_field parse_rest
parse_trimmed fmt unmarshal [] = err (codes "empty expression")
parse_trimmed fmt unmarshal (c ∷ cs) = elim (cut_at 32 (c ∷ cs)) [
  | none ↦ err (invalid_expression fmt (c ∷ cs))
  | some (field, rest) ↦
      if not (allowed_field field)
      then err (
          codes "unsupported field: "
          ++ (fmt.quote field ++ codes " (supported: destination, method, resource, tool)"))
      else parse_rest fmt unmarshal (c ∷ cs) field (trim_space rest)
]

-- parseRuntimeExpr
unfoldable pub parse_runtime_expr : Fmt → (Text → Outcome (List Text)) → Text → Outcome RuntimeExpr
unfolding trim_space parse_trimmed
parse_runtime_expr fmt unmarshal expr = parse_trimmed fmt unmarshal (trim_space expr)

unfoldable pub has_star : Text → Bool
has_star [] = false
has_star (c ∷ cs) = nat_beq c 42 || has_star cs

-- runtimeExprToRego
unfoldable pub runtime_expr_to_rego :
    Fmt → (Text → Outcome (List Text)) → RuntimeExpr → Outcome Text
unfolding has_star join
runtime_expr_to_rego fmt unmarshal e =
    let path = codes "input.action." ++ e.field in
    if text_eq e.op (codes "contains")
    then ok (
        if has_star e.arg
        then codes "glob.match("
          ++ (fmt.quote e.arg ++ (codes ", [\".\"], " ++ (path ++ codes ")")))
        else codes "contains(" ++ (path ++ (codes ", " ++ (fmt.quote e.arg ++ codes ")"))))
    else if text_eq e.op (codes "any")
    then (do
      items ← wrap (codes "invalid JSON array") (unmarshal e.arg)
      ok (path ++ (codes " in {" ++ (quoted_list fmt items ++ codes "}"))))
    else if text_eq e.op (codes "except")
    then (do
      items ← wrap (codes "invalid JSON array") (unmarshal e.arg)
      ok (codes "not " ++ (path ++ (codes " in {" ++ (quoted_list fmt items ++ codes "}")))))
    else err (codes "unsupported operator: " ++ fmt.quote e.op)

abbrev line : Text → Text
line s = s ++ 10 ∷ []

-- What one of the three loops writes for an expression.
abbrev pub runtime_rule_text : Fmt → Text → Text → Text → Text → Text
runtime_rule_text fmt label rule_set expr condition =
    line (codes "# " ++ (label ++ (codes ": " ++ expr)))
    ++ (line (rule_set ++ codes " contains msg if {")
        ++ (line (codes "    " ++ condition)
            ++ (line (codes "    msg := " ++ fmt.quote expr) ++ (line (codes "}") ++ line []))))

-- fmt.Errorf("runtime-rules.%s[%d]: %w", kind, i, err)
unfoldable pub runtime_error {ℓ} : {A : Type ℓ} → Fmt → Text → ℕ → Outcome A → Outcome A
runtime_error fmt kind i (ok a) = ok a
runtime_error fmt kind i (err e) = err (at_index fmt (codes "runtime-rules." ++ kind) i e)

-- The condition of an expression.
unfoldable pub compile_expr : Fmt → (Text → Outcome (List Text)) → Text → Outcome Text
unfolding parse_runtime_expr runtime_expr_to_rego
compile_expr fmt unmarshal expr = do
  e ← parse_runtime_expr fmt unmarshal expr
  runtime_expr_to_rego fmt unmarshal e

-- One of the three loops of CompileRuntime, from the index i on.
unfoldable pub compile_exprs :
    Fmt → (Text → Outcome (List Text)) → Text → Text → Text → ℕ → List Text → Outcome Text
unfolding compile_expr runtime_error
compile_exprs fmt unmarshal kind label rule_set i [] = ok []
compile_exprs fmt unmarshal kind label rule_set i (expr ∷ exprs) = do
  condition ← runtime_error fmt kind i (compile_expr fmt unmarshal expr)
  rest ← compile_exprs fmt unmarshal kind label rule_set (i + 1) exprs
  ok (runtime_rule_text fmt label rule_set expr condition ++ rest)

abbrev header : Text
header =
    line (codes "package skillledger.runtime_policy")
    ++ (line [] ++ (line (codes "import rego.v1") ++ line []))

-- CompileRuntime
unfoldable pub compile_runtime :
    Fmt → (Text → Outcome (List Text)) → Option RuntimeRuleSet → Outcome Text
unfolding compile_exprs
compile_runtime fmt unmarshal none = ok []
compile_runtime fmt unmarshal (some rules) = do
  block ← compile_exprs fmt unmarshal (codes "block") (codes "Block") (codes "deny") 0 rules.block
  warn ← compile_exprs fmt unmarshal (codes "warn") (codes "Warn") (codes "warnings") 0 rules.warn
  log ← compile_exprs fmt unmarshal (codes "log") (codes "Log") (codes "log_entries") 0 rules.log
  ok (header ++ (block ++ (warn ++ log)))
