-- ===== src/Accounts/Tokens.antt =====
-- internal/service/auth_token.go, and ValidateTokenAndGetUser of internal/service/auth_validation.go: refreshing,
-- signing out, and who a token belongs to.
use lauth.Prelude.{
  ℕ, String, ◌==◌, Bool, true, false, not, ◌&&◌, Option, none, some, List, eqb, if◌then◌else◌,
}
use lauth.Prelude.Dict.{Dict, lookup}
use lauth.Accounts.Users.{
  User, UserError, user_not_found, user_disabled, database_error, disabled, get_user_row,
}
use lauth.Oauth.Token.{
  Entry, RedisIo, live, access_token, refresh_token, TokenClaims, TokenService, TokenPair,
  TokenError, TokenResult, ok, err, refresh_key, validate_token, refresh, revoke,
}

-- The answer of RefreshToken: the user with the new tokens, or an error of the token service or
-- about the user.
pub data Refreshed : Type 0 where
  refreshed : User → TokenPair → Refreshed
  token_refused : TokenError → Refreshed
  user_refused : UserError → Refreshed

-- `RefreshToken` with the row of the user.
abbrev pub refreshed_user : TokenPair → Bool → Option User → Refreshed
refreshed_user pair false row = user_refused database_error
refreshed_user pair true none = user_refused user_not_found
refreshed_user pair true (some u) =
    if eqb u.status disabled then user_refused user_disabled else refreshed u pair

-- `RefreshToken` with the claims of the new refresh token.
abbrev pub refreshed_claims : TokenPair → Bool → List User → TokenResult TokenClaims → Refreshed
refreshed_claims pair read_ok users (err e) = token_refused e
refreshed_claims pair read_ok users (ok c) =
    refreshed_user pair read_ok (get_user_row c.user_id users)

-- TokenUserInfo
pub record TokenUserInfo : Type 0 where
  pub user_id : String
  pub app_id : String
  pub username : String

abbrev pub user_info : TokenResult TokenClaims → TokenResult TokenUserInfo
user_info (err e) = err e
user_info (ok c) = ok (record { user_id = c.user_id; app_id = c.app_id; username = c.username })

module _ (s : TokenService) where
  abbrev pub refresh_answer :
      ℕ → RedisIo → Bool → List User → TokenResult TokenPair × Dict Entry → Refreshed × Dict Entry
  refresh_answer now io read_ok users (err e, r) = (token_refused e, r)
  refresh_answer now io read_ok users (ok pair, r) = (
    refreshed_claims pair read_ok users (validate_token s now io pair.refresh refresh_token r),
    r,
  )

  -- RefreshToken of the authentication service. `checking` is about the validation that follows.
  unfoldable pub refresh_account :
      ℕ → RedisIo → RedisIo → Bool → String → List User → Dict Entry → Refreshed × Dict Entry
  refresh_account now io checking read_ok token users r =
      refresh_answer now checking read_ok users (refresh s now io token r)

  -- `Logout` from the stored refresh token on, whose revocation may fail.
  abbrev pub revoke_stored : ℕ → RedisIo → Option String → Dict Entry → Dict Entry
  revoke_stored now io none r = r
  revoke_stored now io (some stored) r =
      if io.get_ok && not (stored == "") then (revoke s now io stored refresh_token r).1 else r

  abbrev pub sign_out :
      ℕ → RedisIo → TokenClaims → TokenResult Unit × Dict Entry → TokenResult Unit × Dict Entry
  sign_out now io c (err e, r) = (err e, r)
  sign_out now io c (ok tt, r) =
      (ok tt, revoke_stored now io (live now (lookup (refresh_key c.user_id) r)) r)

  abbrev pub logout_valid :
      ℕ
      → RedisIo
      → RedisIo
      → String
      → TokenResult TokenClaims
      → Dict Entry
      → TokenResult Unit × Dict Entry
  logout_valid now io dropping token (err e) r = (err e, r)
  logout_valid now io dropping token (ok c) r =
      sign_out now dropping c (revoke s now io token access_token r)

  -- Logout. `dropping` is about the calls for the refresh token.
  unfoldable pub logout :
      ℕ → RedisIo → RedisIo → String → Dict Entry → TokenResult Unit × Dict Entry
  logout now io dropping token r =
      logout_valid now io dropping token (validate_token s now io token access_token r) r

  -- ValidateTokenAndGetUser
  unfoldable pub validate_token_and_get_user :
      ℕ → RedisIo → String → Dict Entry → TokenResult TokenUserInfo
  validate_token_and_get_user now io token r =
      user_info (validate_token s now io token access_token r)
