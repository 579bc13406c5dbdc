-- ===== src/Tests/Rules.antt =====
-- Tests of the rule tables, the cache and the rule service.
use lauth.Prelude.{◌≡◌, ◌⊎◌, refl, true, false, none, [], ◌∷◌, All}
use lauth.Engine.Outcome.{ok, err, database_error}
use lauth.Engine.Evaluate.{Rule, EngineResult, evaluate_rules, rule_result, default_deny}
use lauth.Rules.Store.{Store}
use lauth.Rules.Repository.{first}
use lauth.Rules.Cache.{evaluate}
use lauth.Rules.Service
use lauth.Rules.Fresh.{delete, apply, loaded, with_own_conditions, evaluate-apply}
use lauth.Rules.Priority.{Eligible, IsTop, loaded-IsTop}
use lauth.Tests.Engine.{show, show_plain, never, request, rule, is_admin}

abbrev store : Store
store = record {
  rules = rule "r" [] ∷ [];
  conditions = is_admin ∷ [];
  cache = ("rules:app", record { rules = rule "r" (is_admin ∷ []) ∷ []; expires = 9 }) ∷ [];
  now = 5;
  fails = λ _. false;
  calls = 0;
}

created_enabled :
    (Service.create "app" (record (rule "n" []) { is_enabled = false }) store).1.rules
    ≡ rule "r" [] ∷ record (rule "n" []) { app_id = "app" } ∷ []
unfolding Service.create first
created_enabled = refl

no_empty_conditions :
    Service.update_conditions "r" [] store ≡ (err database_error, record store { calls = 2 })
unfolding Service.update_conditions first
no_empty_conditions = refl

evaluate-apply_example :
    (evaluate show never "app" request (apply (delete "r") store).1).0
    ≡ evaluate_rules show
        (apply (delete "r") store).1.now
        never
        (loaded "app" (apply (delete "r") store).1)
        request
unfolding Service.delete first
evaluate-apply_example =
    evaluate-apply show never (delete "r") "app" request store (rule "r" [], refl, refl) refl
      (λ n h. refl)

loaded-IsTop_example :
    (res : EngineResult) × (evaluate_rules show 5 never (loaded "app" store) request ≡ ok res)
    × (((x : Rule) × IsTop show show_plain 5 never "app" request store x
          × (res ≡ rule_result show 5 never (with_own_conditions store x) request true none))
        ⊎ ((res ≡ default_deny show 5 never request)
            × All (λ x. ¬ (Eligible show show_plain 5 never "app" request store x)) store.rules))
loaded-IsTop_example = loaded-IsTop show show_plain 5 never "app" request store
