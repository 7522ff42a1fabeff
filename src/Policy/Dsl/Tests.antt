-- ===== src/Policy/Dsl/Tests.antt =====
-- Runs of cli/internal/policy/dsl, and its theorems at concrete inputs.
use skillledger.Base.{
  ◌+◌, ◌≡◌, refl, ◌≢◌, ◌↔◌, true, false, none, some, List, [], ◌∷◌, ◌++◌, Text, codes, text_eq,
  Outcome, ok, err, Dict, trim_space,
}
use skillledger.Policy.Dsl.{Rule, Policy, Fmt, disallowed, parse}
use skillledger.Policy.Dsl.Compile.{parse_operator, compile_rule, compile, compile_error}
use skillledger.Policy.Dsl.Runtime.{
  RuntimeExpr, allowed_field, parse_runtime_expr, compile_expr, compile_runtime,
}
use skillledger.Policy.Dsl.Operators.{Without, parse_operator_iff}
use skillledger.Policy.Dsl.Safe.{SafeArgument, parse_runtime_expr-compiles}

-- Quotes around, and one digit.
abbrev fmt : Fmt
fmt = record { quote = λ s. 34 ∷ (s ++ 34 ∷ []); decimal = λ n. (48 + n) ∷ [] }

abbrev decode : Text → Outcome (List Text)
decode t = ok (codes "a" ∷ codes "b" ∷ [])

trimmed : trim_space (codes " \t a b \n") ≡ codes "a b"
unfolding trim_space
trimmed = refl

abbrev rule : Rule
rule = record {
  deny = codes "contains(\"eval\")";
  warn = [];
  except = codes "x" ∷ [];
  message = codes "no \"eval\"";
}

abbrev policy : Dict (List Rule) → Policy
policy rules = record {
  version = 1;
  rules = rules;
  publishers = record { allowlist = [] };
  runtime_rules = none;
}

rule_compiles :
    compile_rule fmt (codes "tools") 0 rule
    ≡ ok (
        codes
          "# Rule: tools - no \\\"eval\\\"\ndeny contains msg if {\n    some cap in input.capabilities.tools\n    contains(cap, \"eval\")\n    not cap in {\"x\"}\n    msg := \"no \"eval\"\"\n}\n\n")
unfolding compile_rule compile_error
rule_compiles = refl

both_set :
    parse fmt
      (λ t. ok (policy ((codes "tools", record rule { warn = codes "any(\"x\")" } ∷ []) ∷ [])))
      (codes "y")
    ≡ err (codes "rule tools[0]: exactly one of deny or warn must be set")
unfolding parse text_eq
both_set = refl

bad_category :
    compile fmt (some (policy ((codes "Tools", rule ∷ []) ∷ [])))
    ≡ err (codes "invalid category name \"Tools\": must match [a-z][a-z0-9_]*")
unfolding compile
bad_category = refl

missing_quote :
    parse_operator fmt (codes "any(x)")
    ≡ err (codes "invalid operator expression: \"any(x)\" (expected format: operator(\"arg\"))")
unfolding parse_operator
missing_quote = refl

parse_operator_iff_example :
    (parse_operator fmt (codes "any(\"ab\")") ≡ ok (codes "any", codes "ab")) ↔ (
      (codes "any(\"ab\")" ≡ codes "any" ++ (40 ∷ 34 ∷ (codes "ab" ++ codes "\")")))
      × Without 40 (codes "any")
      × (codes "ab" ≢ [])
      × (disallowed (codes "ab") ≡ false))
parse_operator_iff_example = parse_operator_iff fmt (codes "any(\"ab\")") (codes "any") (codes "ab")

abbrev expr : Text
expr = codes "tool any [\"a\",\n \"b\"]"

abbrev parsed_expr : RuntimeExpr
parsed_expr = record { field = codes "tool"; op = codes "any"; arg = codes "[\"a\",\n \"b\"]" }

parsed : parse_runtime_expr fmt decode expr ≡ ok parsed_expr
unfolding parse_runtime_expr
parsed = refl

parse_runtime_expr-compiles_example :
    ((c : Text) × (compile_expr fmt decode expr ≡ ok c))
    × (allowed_field (codes "tool") ≡ true)
    × SafeArgument fmt decode parsed_expr
parse_runtime_expr-compiles_example = parse_runtime_expr-compiles fmt decode expr parsed_expr parsed

-- A line end inside the array ends the comment: the rest of the array is a line of Rego.
comment_ends :
    compile_runtime fmt decode (some (record { block = expr ∷ []; warn = []; log = [] }))
    ≡ ok (
        codes
          "package skillledger.runtime_policy\n\nimport rego.v1\n\n# Block: tool any [\"a\",\n \"b\"]\ndeny contains msg if {\n    input.action.tool in {\"a\", \"b\"}\n    msg := \"tool any [\"a\",\n \"b\"]\"\n}\n\n")
unfolding compile_runtime
comment_ends = refl

unknown_field :
    parse_runtime_expr fmt decode (codes "host contains \"x\"")
    ≡ err (codes "unsupported field: \"host\" (supported: destination, method, resource, tool)")
unfolding parse_runtime_expr
unknown_field = refl
