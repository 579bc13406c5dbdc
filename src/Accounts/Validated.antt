-- ===== src/Accounts/Validated.antt =====
-- Whom `ValidateTokenAndRuleWithUser` of internal/service/auth_validation.go answers.
use lauth.Prelude.{
  ℕ, String, eq_iff, ◌≡◌, refl, ap, ◌∙◌, sym, inl, inr, Bool, true, false, Option, none, some, List,
  Bool-cases, arith,
}
use lauth.Prelude.Dict.{Dict, lookup, lookup-insert}
use lauth.Accounts.Users.{User, get_user_row}
use lauth.Accounts.Tokens.{TokenUserInfo, validate_token_and_get_user}
use lauth.Oauth.Token.{Entry, RedisIo, TokenService, TokenResult, ok, err}
use lauth.Engine.Outcome.{Outcome}
use lauth.Engine.Value.{Value, str, float, int, bool, null, arr, obj}
use lauth.Engine.Evaluate.{Rule, EngineResult}
use lauth.Rules.Store.{Store}
use lauth.Rules.Cache.{evaluate}
use lauth.Accounts.Validation.{
  response, with_token, is_another, with_row, validate_user_rules, validate_claimed,
  validate_token_and_rule_with_user,
}

with_row-response :
    (o : Outcome EngineResult) (read_ok : Bool) (row : Option User) (u : User) (e : EngineResult)
    → with_row o read_ok row ≡ response u e
    → (o ≡ Outcome.ok e) × (read_ok ≡ true) × (row ≡ some u)
with_row-response Outcome.panic read_ok row u e h = absurd (ground (arith, h))
with_row-response (Outcome.ok x) false row u e h = absurd (ground (arith, h))
with_row-response (Outcome.ok x) true none u e h = absurd (ground (arith, h))
with_row-response (Outcome.ok x) true (some v) u e h = ground (arith, h)
with_row-response (Outcome.err x) false row u e h = absurd (ground (arith, h))
with_row-response (Outcome.err x) true none u e h = absurd (ground (arith, h))
with_row-response (Outcome.err x) true (some v) u e h = absurd (ground (arith, h))

-- The data has what the token says, and the user id of the request.
abbrev pub IsClaimed : TokenUserInfo → Dict Value → Dict Value → Type 0
IsClaimed i d told =
    (lookup "token_user_id" told ≡ some (str i.user_id))
    × (lookup "token_app_id" told ≡ some (str i.app_id))
    × (lookup "token_username" told ≡ some (str i.username))
    × (lookup "user_id" told ≡ lookup "user_id" d)

-- A text that is there is the id of the user.
abbrev pub IsOwn : String → Option Value → Type 0
IsOwn user (some (str t)) = t ≡ user
IsOwn user o = Unit

is_another-IsOwn : (user : String) (o : Option Value) → is_another user o ≡ false → IsOwn user o
is_another-IsOwn user none h = tt
is_another-IsOwn user (some (str t)) h = ground (arith, eq_iff t user, h)
is_another-IsOwn user (some (float f)) h = tt
is_another-IsOwn user (some (int n)) h = tt
is_another-IsOwn user (some (bool b)) h = tt
is_another-IsOwn user (some null) h = tt
is_another-IsOwn user (some (arr a)) h = tt
is_another-IsOwn user (some (obj m)) h = tt

with_token-IsClaimed : (i : TokenUserInfo) (d : Dict Value) → IsClaimed i d (with_token i d)
with_token-IsClaimed i d =
    (simp lookup-insert, simp lookup-insert, simp lookup-insert, simp lookup-insert)

module _ (s : TokenService) (sprint : Value → String) (cancelled : Rule → Bool) where
  -- The user, the token and the data behind an answer.
  abbrev pub Stands :
      Bool
      → List User
      → Dict Value
      → Store
      → User
      → EngineResult
      → TokenUserInfo
      → Dict Value
      → Type 0
  Stands read_ok users d rules u e i told =
      IsClaimed i d told
      × IsOwn i.user_id (lookup "user_id" d)
      × ((evaluate sprint cancelled i.app_id told rules).0 ≡ Outcome.ok e)
      × (read_ok ≡ true)
      × (get_user_row i.user_id users ≡ some u)

  validate_user_rules-Stands :
      (read_ok : Bool) (users : List User) (d : Dict Value) (i : TokenUserInfo) (rules : Store)
      (u : User) (e : EngineResult)
      → (validate_user_rules s sprint cancelled read_ok users d i rules).0 ≡ response u e
      → Stands read_ok users d rules u e i (with_token i d)
  validate_user_rules-Stands read_ok users d i rules u e h =
      let claimed = with_token-IsClaimed i d in
      elim (Bool-cases (is_another i.user_id (lookup "user_id" (with_token i d)))) [
        | inl b ↦ cc (simp b at h)
        | inr b ↦
            let row =
              with_row-response _ read_ok (get_user_row i.user_id users) u e (simp b at h) in
            (
              claimed,
              is_another-IsOwn i.user_id _ (sym (ap (is_another i.user_id) claimed.3) ∙ b),
              row.0,
              row.1,
              row.2,
            )
      ]

  validate_claimed-Stands :
      (read_ok : Bool) (users : List User) (d : Dict Value) (o : TokenResult TokenUserInfo)
      (rules : Store) (u : User) (e : EngineResult)
      → (validate_claimed s sprint cancelled read_ok users d o rules).0 ≡ response u e
      → (i : TokenUserInfo) × (told : Dict Value) × (o ≡ ok i)
        × Stands read_ok users d rules u e i told
  validate_claimed-Stands read_ok users d (err x) rules u e h = absurd (ground (arith, h))
  validate_claimed-Stands read_ok users d (ok i) rules u e h =
      (i, with_token i d, refl, validate_user_rules-Stands read_ok users d i rules u e h)

-- When ValidateTokenAndRuleWithUser answers a user and a result without an error, the access token
-- is valid; the result is the decision of the rules of the token's application over data that name
-- the user, the application and the user name of the token, whatever the request says of them; a
-- text that the request gives as the user id is the one of the token; and the user is the row of
-- the token's user.
pub validate_token_and_rule_with_user-response :
    (s : TokenService) (sprint : Value → String) (cancelled : Rule → Bool) (now : ℕ) (io : RedisIo)
    (read_ok : Bool) (token : String) (d : Dict Value) (users : List User) (r : Dict Entry)
    (rules : Store) (u : User) (e : EngineResult)
    → (validate_token_and_rule_with_user s sprint cancelled now io read_ok token d users r rules).0
      ≡ response u e
    → (i : TokenUserInfo) × (told : Dict Value) × (validate_token_and_get_user s now io token r
        ≡ ok i)
      × Stands s sprint cancelled read_ok users d rules u e i told
unfolding validate_token_and_rule_with_user
validate_token_and_rule_with_user-response s sprint cancelled now io read_ok token d users r rules u
      e h =
    validate_claimed-Stands s sprint cancelled read_ok users d
      (validate_token_and_get_user s now io token r) rules u e h
