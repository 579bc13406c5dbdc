-- ===== src/Accounts/Validation.antt =====
-- `ValidateTokenAndRuleWithUser` of internal/service/auth_validation.go, over the tokens, the users
-- and the rules. The data of a request is a map that is not nil.
use lauth.Prelude.{ℕ, String, ◌==◌, Bool, true, false, not, Option, none, some, List, if◌then◌else◌}
use lauth.Prelude.Dict.{Dict, lookup, insert}
use lauth.Accounts.Users.{User, UserError, user_not_found, database_error, get_user_row}
use lauth.Accounts.Tokens.{TokenUserInfo, validate_token_and_get_user}
use lauth.Oauth.Token.{Entry, RedisIo, TokenService, TokenError, TokenResult, ok, err}
use lauth.Engine.Outcome.{Outcome, Error}
use lauth.Engine.Value.{Value, str}
use lauth.Engine.Evaluate.{Rule, EngineResult}
use lauth.Rules.Store.{Store, Action}
use lauth.Rules.Cache.{evaluate}

-- ValidateTokenAndRuleResponse with the result of the rules, whose error is returned along; or why
-- there is none; or a panic in the rules.
pub data ValidatedUser : Type 0 where
  response : User → EngineResult → ValidatedUser
  rule_error : User → Error → ValidatedUser
  token_refused : TokenError → ValidatedUser
  user_id_mismatch : ValidatedUser
  user_refused : UserError → ValidatedUser
  panicked : ValidatedUser

-- What the token says is written into the data, over what the request says.
abbrev pub with_token : TokenUserInfo → Dict Value → Dict Value
with_token i d =
    insert "token_username" (str i.username)
      (insert "token_app_id" (str i.app_id) (insert "token_user_id" (str i.user_id) d))

-- `data["user_id"].(string)` is another user's; a value that is no text counts for nothing.
abbrev pub is_another : String → Option Value → Bool
is_another user none = false
is_another user (some (str t)) = not (t == user)
is_another user (some v) = false

abbrev pub with_row : Outcome EngineResult → Bool → Option User → ValidatedUser
with_row Outcome.panic read_ok row = panicked
with_row result false row = user_refused database_error
with_row result true none = user_refused user_not_found
with_row (Outcome.ok x) true (some u) = response u x
with_row (Outcome.err e) true (some u) = rule_error u e

module _ (s : TokenService) (sprint : Value → String) (cancelled : Rule → Bool) where
  -- ValidateRule
  abbrev pub validate_rule : String → Dict Value → Action EngineResult
  validate_rule app d = evaluate sprint cancelled app d

  abbrev pub validate_user_rules :
      Bool → List User → Dict Value → TokenUserInfo → Store → ValidatedUser × Store
  validate_user_rules read_ok users d i rules =
      let data' = with_token i d in
      let checked = validate_rule i.app_id data' rules in
      if is_another i.user_id (lookup "user_id" data')
      then (user_id_mismatch, rules)
      else (with_row checked.0 read_ok (get_user_row i.user_id users), checked.1)

  abbrev pub validate_claimed :
      Bool → List User → Dict Value → TokenResult TokenUserInfo → Store → ValidatedUser × Store
  validate_claimed read_ok users d (err e) rules = (token_refused e, rules)
  validate_claimed read_ok users d (ok i) rules = validate_user_rules read_ok users d i rules

  -- ValidateTokenAndRuleWithUser
  unfoldable pub validate_token_and_rule_with_user :
      ℕ
      → RedisIo
      → Bool
      → String
      → Dict Value
      → List User
      → Dict Entry
      → Store
      → ValidatedUser × Store
  validate_token_and_rule_with_user now io read_ok token d users r rules =
      validate_claimed read_ok users d (validate_token_and_get_user s now io token r) rules
