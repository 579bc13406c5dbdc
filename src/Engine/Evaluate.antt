-- ===== src/Engine/Evaluate.antt =====
-- pkg/engine/engine.go and executor.go: the evaluation of one rule, and the decision over a list
-- of rules. Times are numbers. Of a rule the time stamps and the pointer to its application are
-- left out.
use lauth.Prelude.{ℕ, String, Bool, false, not, Option, none, some, List, [], ◌∷◌, if◌then◌else◌}
use lauth.Prelude.Int.{ℤ}
use lauth.Prelude.Dict.{Dict}
use lauth.Engine.Outcome.{Outcome, ok, err, panic, ◌>>=◌, Error, execution_cancelled}
use lauth.Engine.Value.{Value}
use lauth.Engine.Expression.{Expression, evaluate}
use lauth.Engine.Parser.{RuleCondition, parse}

-- model.Rule
pub record Rule : Type 0 where
  pub id : String
  pub app_id : String
  pub name : String
  pub description : String
  pub rule_type : String
  pub priority : ℤ
  pub is_enabled : Bool
  pub conditions : List RuleCondition

-- engine.Result
pub record EngineResult : Type 0 where
  pub allowed : Bool
  pub rule : Option Rule
  pub fields : Dict Value
  pub time : ℕ
  pub error : Option Error

-- What `EvaluateRule` returns: a result, and an error beside it.
pub data RuleCheck : Type 0 where
  returned : EngineResult → Option Error → RuleCheck
  panicked : RuleCheck

-- `sprint` is `fmt.Sprintf("%v", value)`; `now` is `time.Now()`; `cancelled r` tells whether the
-- context is done when the executor is called for the rule `r`.
module _ (sprint : Value → String) (now : ℕ) (cancelled : Rule → Bool) where
  -- executor.Execute
  unfoldable pub execute : Rule → Expression → Dict Value → Outcome Bool
  execute r e d = if cancelled r then err execution_cancelled else evaluate sprint e d

  abbrev pub rule_result : Rule → Dict Value → Bool → Option Error → EngineResult
  rule_result r d allowed e = record {
    allowed = allowed;
    rule = some r;
    fields = d;
    time = now;
    error = e;
  }

  abbrev pub rule_check : Rule → Dict Value → Outcome Bool → RuleCheck
  rule_check r d (ok allowed) = returned (rule_result r d allowed none) none
  rule_check r d (err e) = returned (rule_result r d false (some e)) (some e)
  rule_check r d panic = panicked

  -- EvaluateRule
  unfoldable pub evaluate_rule : Rule → Dict Value → RuleCheck
  unfolding execute
  evaluate_rule r d = rule_check r d (do e ← parse r.conditions; execute r e d)

  -- The answer when no rule allows.
  abbrev pub default_deny : Dict Value → EngineResult
  default_deny d = record { allowed = false; rule = none; fields = d; time = now; error = none }

  -- One round of the loop, with what the later rounds give.
  abbrev pub round : RuleCheck → Outcome EngineResult → Outcome EngineResult
  round (returned result none) rest = if result.allowed then ok result else rest
  round (returned result (some e)) rest = rest
  round panicked rest = panic

  -- The loop of `Evaluate`.
  unfoldable pub evaluate_rules : List Rule → Dict Value → Outcome EngineResult
  evaluate_rules [] d = ok (default_deny d)
  evaluate_rules (r ∷ rs) d =
      let rest = evaluate_rules rs d in
      if not r.is_enabled then rest else round (evaluate_rule r d) rest
