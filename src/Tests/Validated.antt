-- ===== src/Tests/Validated.antt =====
-- Tests of `ValidateTokenAndRuleWithUser` of internal/service/auth_validation.go.
use lauth.Prelude.{◌≡◌, refl, true, false, [], ◌∷◌}
use lauth.Prelude.Dict.{Dict, lookup, insert}
use lauth.Accounts.Users.{get_user_row}
use lauth.Accounts.Tokens.{TokenUserInfo, validate_token_and_get_user}
use lauth.Accounts.Validation.{user_id_mismatch, with_token, validate_token_and_rule_with_user}
use lauth.Accounts.Validated.{Stands, validate_token_and_rule_with_user-response}
use lauth.Oauth.Token.{TokenResult, validate_token}
use lauth.Engine.Value.{Value, str}
use lauth.Engine.Evaluate.{EngineResult, default_deny, evaluate_rules}
use lauth.Rules.Store.{Store}
use lauth.Rules.Cache.{evaluate, build_key}
use lauth.Tests.Engine.{show, never}
use lauth.Tests.Oauth.{plain, works, parse_known}
use lauth.Tests.Accounts.{alice}

-- Application `a` has no rules, which is in the cache.
abbrev store : Store
store = record {
  rules = [];
  conditions = [];
  cache = ("rules:a", record { rules = []; expires = 9 }) ∷ [];
  now = 5;
  fails = λ _. false;
  calls = 0;
}

-- The request says that it is of another application.
abbrev request : Dict Value
request = ("user_id", str "u") ∷ ("token_app_id", str "b") ∷ []

abbrev info : TokenUserInfo
info = record { user_id = "u"; app_id = "a"; username = "n" }

abbrev decided : EngineResult
decided = default_deny show 5 never (with_token info request)

other_user_refused :
    (validate_token_and_rule_with_user plain show never 4 works true "A"
      (("user_id", str "v") ∷ [])
      (alice ∷ [])
      []
      store).0
    ≡ user_id_mismatch
unfolding validate_token_and_rule_with_user validate_token_and_get_user validate_token parse_known
    lookup insert
other_user_refused = refl

validate_token_and_rule_with_user-response_example :
    (i : TokenUserInfo) × (told : Dict Value) × (validate_token_and_get_user plain 4 works "A" []
      ≡ TokenResult.ok i)
    × Stands plain show never true (alice ∷ []) request store alice decided i told
unfolding validate_token_and_rule_with_user validate_token_and_get_user validate_token parse_known
    lookup insert evaluate build_key evaluate_rules get_user_row
validate_token_and_rule_with_user-response_example =
    validate_token_and_rule_with_user-response plain show never 4 works true "A" request
      (alice ∷ []) [] store alice decided refl
