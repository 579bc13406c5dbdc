-- ===== src/Tests/Engine.antt =====
-- Tests of pkg/engine.
use lauth.Prelude.{String, ◌≡◌, ◌≢◌, ◌↔◌, inl, inr, refl, Bool, true, false, none, List, [], ◌∷◌}
use lauth.Prelude.Int.{pos}
use lauth.Prelude.Dict.{Dict, lookup}
use lauth.Engine.Outcome.{ok, err, panic, ◌>>=◌, invalid_in_values, field_not_found}
use lauth.Engine.Value.{Value, Float64, float, str, arr, next, end, eq_value, compare_values}
use lauth.Engine.Expression.{find_field, has_item, contains_in, not_contains_in, evaluate}
use lauth.Engine.Parser.{
  Operator, eq, gte, is_in, contains, RuleCondition, parse_condition, parse_conditions, parse,
}
use lauth.Engine.Evaluate.{Rule, EngineResult, execute, evaluate_rule, evaluate_rules, rule_result}
use lauth.Engine.Documented.{AllMeant, parse-AllMeant}
use lauth.Engine.Decision.{Decides, evaluate_rules-Decides}
use lauth.Engine.Operators.{in_never_holds}

engine : Unit {0}
unfolding evaluate_rules evaluate_rule execute evaluate parse parse_conditions parse_condition
    find_field lookup eq_value compare_values has_item contains_in not_contains_in
engine = tt

-- Enough of `%v` for the tests.
abbrev pub show : Value → String
show (str s) = s
show _ = "?"

pub show_plain : (s : String) → show (str s) ≡ s
show_plain s = refl

abbrev pub never : Rule → Bool
never r = false

abbrev pub condition : String → Operator → String → RuleCondition
condition f op v = record { id = "c"; rule_id = "r"; field = f; operator = op; value = v }

-- The double 17.0.
abbrev pub seventeen : Float64
seventeen = record { negative = false; magnitude = 0x4031_0000_0000_0000 }

abbrev pub request : Dict Value
request =
    ("role", str "admin")
    ∷ ("age", float seventeen)
    ∷ ("groups", arr (next (str "ops") (next (str "dev") end)))
    ∷ []

abbrev pub rule : String → List RuleCondition → Rule
rule id cs = record {
  id = id;
  app_id = "app";
  name = id;
  description = "";
  rule_type = "static";
  priority = pos 1;
  is_enabled = true;
  conditions = cs;
}

abbrev pub is_admin : RuleCondition
is_admin = condition "role" eq "admin"

-- A missing field, a text in a list, a group, and a number that passes any bound.
evaluate_tests :
    ((do e ← parse (condition "name" eq "x" ∷ []); evaluate show e request)
      ≡ err (field_not_found "name"))
    × ((do e ← parse (condition "role" is_in "admin" ∷ []); evaluate show e request)
        ≡ err invalid_in_values)
    × ((do e ← parse (condition "groups" contains "dev" ∷ []); evaluate show e request) ≡ ok true)
    × ((do e ← parse (condition "age" gte "18" ∷ []); evaluate show e request) ≡ ok true)
unfolding engine
evaluate_tests = (refl, refl, refl, refl)

abbrev rules : List Rule
rules = rule "first" (condition "role" eq "guest" ∷ []) ∷ rule "second" (is_admin ∷ []) ∷ []

first_match :
    evaluate_rules show 5 never rules request
    ≡ ok (rule_result show 5 never (rule "second" (is_admin ∷ [])) request true none)
unfolding engine
first_match = refl

abbrev staff : List RuleCondition
staff = is_admin ∷ condition "role" gte "adm" ∷ condition "groups" contains "dev" ∷ []

parse-AllMeant_example :
    (((do e ← parse staff; evaluate show e request) ≡ ok true) ↔ AllMeant request staff)
    × ((do e ← parse staff; evaluate show e request) ≢ panic)
unfolding lookup
parse-AllMeant_example = parse-AllMeant show show_plain staff request (tt, (tt, (tt, tt)))

evaluate_rules-Decides_example :
    (res : EngineResult) × (evaluate_rules show 5 never rules request ≡ ok res)
    × Decides show show_plain 5 never request rules res
evaluate_rules-Decides_example = evaluate_rules-Decides show show_plain 5 never request rules

abbrev adult : RuleCondition
adult = condition "age" gte "18"

in_never_holds_example :
    (do e ← parse (is_admin ∷ condition "role" is_in "admin" ∷ []); evaluate show e request)
    ≢ ok true
in_never_holds_example =
    in_never_holds show show_plain (is_admin ∷ condition "role" is_in "admin" ∷ []) request
      (inr (inl (inl refl)))
