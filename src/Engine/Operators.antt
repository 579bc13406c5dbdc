-- ===== src/Engine/Operators.antt =====
-- How the operators of pkg/engine/parser.go relate to one another, and what the text type of a
-- stored condition's value does to IN and to the orders.
use lauth.Prelude.{
  String, ◌≡◌, ◌≢◌, ◌⊎◌, ◌↔◌, inl, inr, Bool, true, false, Option, none, some, List, [], ◌∷◌, arith,
  Any, All-Any, Option-cases,
}
use lauth.Prelude.Dict.{Dict, lookup}
use lauth.Engine.Outcome.{Outcome, ok, ◌>>=◌}
use lauth.Engine.Value.{Value, Float64, float, str, compare_values}
use lauth.Engine.Expression.{
  Expression, equal, not_equal, greater_than, greater_than_or_equal, less_than, less_than_or_equal,
  negate, find_field, evaluate, contains_in, not_contains_in,
}
use lauth.Engine.Parser.{RuleCondition, is_in, not_in, gt, gte, lt, lte, parse, parse_condition}
use lauth.Engine.Satisfies.{Satisfies, FieldMeets}
use lauth.Engine.Semantics.{parse-Agrees}

module _ (sprint : Value → String) where
  not_contains_iff :
      (x v : Value) → (not_contains_in sprint x v ≡ ok true) ↔ (contains_in sprint x v ≡ ok false)
  unfolding contains_in not_contains_in
  not_contains_iff (str s) v = ground arith
  not_contains_iff _ v = ground arith

  -- On every value that a field may have, errors and panics included, `ne` is the negation of
  -- `eq`, `lte` that of `gt`, and `gte` that of `lt`; of two texts or lists `not_contains` is true
  -- exactly when `contains` is false.
  pub evaluate-negate :
      (f : String) (v : Value) (d : Dict Value)
      → (evaluate sprint (not_equal f v) d ≡ negate (evaluate sprint (equal f v) d))
        × (evaluate sprint (less_than_or_equal f v) d
            ≡ negate (evaluate sprint (greater_than f v) d))
        × (evaluate sprint (greater_than_or_equal f v) d
            ≡ negate (evaluate sprint (less_than f v) d))
        × ((evaluate sprint (Expression.not_contains f v) d ≡ ok true)
            ↔ (evaluate sprint (Expression.contains f v) d ≡ ok false))
  unfolding evaluate find_field
  evaluate-negate f v d = (
    ground arith,
    ground arith,
    ground arith,
    elim (Option-cases (lookup f d)) [
      | inl e ↦ ground arith
      | inr (x, e) ↦ ground (arith, not_contains_iff x v)
    ],
  )

  abbrev run : RuleCondition → Dict Value → Outcome Bool
  run c d = do e ← parse_condition c; evaluate sprint e d

  -- A field that holds a number (a double, as JSON numbers do) passes every `gte` and every `lte`
  -- condition and fails every `gt` and every `lt` condition, whatever the number and the bound.
  pub number_order :
      (c : RuleCondition) (x : Float64) (d : Dict Value)
      → lookup c.field d ≡ some (float x)
      → ((c.operator ≡ gte) ⊎ (c.operator ≡ lte) → run c d ≡ ok true)
        × ((c.operator ≡ gt) ⊎ (c.operator ≡ lt) → run c d ≡ ok false)
  unfolding evaluate find_field compare_values parse_condition
  number_order c x d e = ground arith

module _ (sprint : Value → String) (plain : (s : String) → sprint (str s) ≡ s) where
  -- A rule with an `in` or a `not_in` condition, whatever its list and the data, is never
  -- satisfied.
  pub in_never_holds :
      (cs : List RuleCondition) (d : Dict Value)
      → Any (λ c. (c.operator ≡ is_in) ⊎ (c.operator ≡ not_in)) cs
      → (do e ← parse cs; evaluate sprint e d) ≢ ok true
  in_never_holds [] d any h = any
  in_never_holds (c ∷ cs) d any h =
      let (x, holds, op) =
        All-Any (Satisfies d) _ (c ∷ cs) ((parse-Agrees sprint plain (c ∷ cs) d).0.0 h) any in
      unmet x (lookup x.field d) op holds
    where
      unmet :
          (x : RuleCondition) (o : Option Value)
          → (x.operator ≡ is_in) ⊎ (x.operator ≡ not_in)
          → ¬ (FieldMeets o x)
      unmet x none op holds = holds
      unmet x (some v) op holds = ground arith
