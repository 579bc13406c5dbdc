-- ===== src/Engine/Parser.antt =====
-- The parser of pkg/engine/parser.go and the rules of internal/model/rule.go.
use lauth.Prelude.{String, List, [], ◌∷◌}
use lauth.Engine.Outcome.{Outcome, ok, err, ◌>>=◌, unsupported_operator, no_conditions}
use lauth.Engine.Value.{str}
use lauth.Engine.Expression.{
  Expression, Expressions, nil, cons, equal, not_equal, greater_than, greater_than_or_equal,
  less_than, less_than_or_equal, and_of,
}

-- model.Operator; `other` is a text that is none of the constants.
pub data Operator : Type 0 where
  eq ne gt gte lt lte is_in not_in contains not_contains : Operator
  other : String → Operator

-- model.RuleCondition
pub record RuleCondition : Type 0 where
  pub id : String
  pub rule_id : String
  pub field : String
  pub operator : Operator
  pub value : String

-- The switch of `parseCondition`. The condition's text becomes the expression's `interface{}`.
abbrev pub parse_operator : Operator → String → String → Outcome Expression
parse_operator eq f v = ok (equal f (str v))
parse_operator ne f v = ok (not_equal f (str v))
parse_operator gt f v = ok (greater_than f (str v))
parse_operator gte f v = ok (greater_than_or_equal f (str v))
parse_operator lt f v = ok (less_than f (str v))
parse_operator lte f v = ok (less_than_or_equal f (str v))
parse_operator Operator.is_in f v = ok (Expression.is_in f (str v))
parse_operator Operator.not_in f v = ok (Expression.not_in f (str v))
parse_operator Operator.contains f v = ok (Expression.contains f (str v))
parse_operator Operator.not_contains f v = ok (Expression.not_contains f (str v))
parse_operator (other op) f v = err (unsupported_operator op)

unfoldable pub parse_condition : RuleCondition → Outcome Expression
parse_condition c = parse_operator c.operator c.field c.value

-- The loop of `Parse`.
unfoldable pub parse_conditions : List RuleCondition → Outcome Expressions
parse_conditions [] = ok nil
parse_conditions (c ∷ cs) = do e ← parse_condition c; es ← parse_conditions cs; ok (cons e es)

unfoldable pub parse : List RuleCondition → Outcome Expression
parse [] = err no_conditions
parse (c ∷ cs) = do es ← parse_conditions (c ∷ cs); ok (and_of es)
