-- ===== src/Oauth/Token.antt =====
-- internal/service/token.go. Redis is a map with expiry, and the lifetimes are positive, since Redis
-- keeps a key with lifetime 0 for good.
use Prim.Native.String.{◌++◌}
use lauth.Prelude.{
  ℕ, ◌+◌, ◌*◌, ◌/◌, String, ◌==◌, Bool, not, Option, none, some, ltb, if◌then◌else◌,
}
use lauth.Prelude.Dict.{Dict, lookup, insert, erase}

-- What Redis holds under a key.
pub record Entry : Type 0 where
  pub value : String
  pub expires : ℕ

-- Which of the calls of Redis in one operation succeed.
pub record RedisIo : Type 0 where
  pub exists_ok : Bool
  pub get_ok : Bool
  pub set_ok : Bool
  pub del_ok : Bool

abbrev pub live : ℕ → Option Entry → Option String
live now none = none
live now (some e) = if ltb now e.expires then some e.value else none

-- TokenType
pub data TokenType : Type 0 where
  access_token refresh_token : TokenType

abbrev pub type_text : TokenType → String
type_text access_token = "access"
type_text refresh_token = "refresh"

-- TokenClaims with the `exp` of the signed claims, in seconds; `kind` is its Type.
pub record TokenClaims : Type 0 where
  pub user_id : String
  pub app_id : String
  pub username : String
  pub kind : String
  pub exp : ℕ
  pub expires_at : ℕ
  pub scope : String

-- golang-jwt with the secret of the service: SignedString, and Parse, which looks at the time.
-- Every claim of a parsed token has its type.
pub record Jwt : Type 0 where
  pub sign : TokenClaims → Option String
  pub parse : ℕ → String → Option TokenClaims

-- tokenService; Redis is the state that the operations pass on.
pub record TokenService : Type 0 where
  pub jwt : Jwt
  pub access_expiry : ℕ
  pub refresh_expiry : ℕ

-- TokenPair
pub record TokenPair : Type 0 where
  pub access : String
  pub refresh : String
  pub access_expire_in : ℕ
  pub refresh_expire_in : ℕ

pub data TokenError : Type 0 where
  sign_failed store_failed parse_failed invalid_token check_failed : TokenError
  token_revoked token_expired get_failed revoke_failed delete_failed : TokenError

pub data TokenResult (A : Type 0) : Type 0 where
  ok : A → TokenResult A
  err : TokenError → TokenResult A

abbrev pub second : ℕ
second = 1000000000

abbrev pub refresh_key : String → String
refresh_key user = "refresh_token:" ++ user

abbrev pub revoked_key : String → String
revoked_key token = "revoked_token:" ++ token

-- `ValidateToken` with what the revocation list has for the token.
abbrev pub validate_unrevoked : ℕ → Option String → TokenClaims → TokenResult TokenClaims
validate_unrevoked now (some _) c = err token_revoked
validate_unrevoked now none c =
    if ltb (c.exp * second) now
    then err token_expired
    else ok (record c { expires_at = c.exp * second })

-- `ValidateToken` from the parsed claims on.
abbrev pub validate_claims :
    ℕ → RedisIo → String → TokenType → Option TokenClaims → Dict Entry → TokenResult TokenClaims
validate_claims now io token type none r = err parse_failed
validate_claims now io token type (some c) r =
    if not (c.kind == type_text type)
    then err invalid_token
    else if not io.exists_ok
    then err check_failed
    else validate_unrevoked now (live now (lookup (revoked_key token) r)) c

abbrev pub claims_for : String → String → String → TokenType → String → TokenClaims
claims_for user app username kind scope = record {
  user_id = user;
  app_id = app;
  username = username;
  kind = type_text kind;
  exp = 0;
  expires_at = 0;
  scope = scope;
}

module _ (s : TokenService) where
  -- generateToken
  unfoldable pub generate_token : TokenClaims → ℕ → ℕ → Option String
  generate_token claims expiry now =
      s.jwt.sign (record claims { exp = (now + expiry) / second; expires_at = now + expiry })

  -- `GenerateTokenPair` with the two signed tokens.
  abbrev pub store_pair :
      ℕ
      → RedisIo
      → String
      → Option String
      → Option String
      → Dict Entry
      → TokenResult TokenPair × Dict Entry
  store_pair now io user none refresh r = (err sign_failed, r)
  store_pair now io user (some access) none r = (err sign_failed, r)
  store_pair now io user (some access) (some refresh) r =
      if not io.set_ok then (err store_failed, r) else (
        ok (record {
          access = access;
          refresh = refresh;
          access_expire_in = s.access_expiry;
          refresh_expire_in = s.refresh_expiry;
        }),
        insert (refresh_key user) (record { value = refresh; expires = now + s.refresh_expiry }) r,
      )

  -- GenerateTokenPair, for the user's id, application and name.
  unfoldable pub generate_token_pair :
      ℕ
      → RedisIo
      → String
      → String
      → String
      → String
      → Dict Entry
      → TokenResult TokenPair × Dict Entry
  generate_token_pair now io user app username scope r =
      store_pair now io user
        (generate_token (claims_for user app username access_token scope) s.access_expiry now)
        (generate_token (claims_for user app username refresh_token scope) s.refresh_expiry now) r

  -- ValidateToken
  unfoldable pub validate_token :
      ℕ → RedisIo → String → TokenType → Dict Entry → TokenResult TokenClaims
  validate_token now io token type r = validate_claims now io token type (s.jwt.parse now token) r

  -- `RefreshToken` with the stored token.
  abbrev pub refresh_stored :
      ℕ
      → RedisIo
      → String
      → TokenClaims
      → Option String
      → Dict Entry
      → TokenResult TokenPair × Dict Entry
  refresh_stored now io token c none r = (err get_failed, r)
  refresh_stored now io token c (some stored) r =
      if not io.get_ok
      then (err get_failed, r)
      else if not (stored == token)
      then (err invalid_token, r)
      else generate_token_pair now io c.user_id c.app_id c.username c.scope r

  -- `RefreshToken` with the validated claims.
  abbrev pub refresh_valid :
      ℕ
      → RedisIo
      → String
      → TokenResult TokenClaims
      → Dict Entry
      → TokenResult TokenPair × Dict Entry
  refresh_valid now io token (err e) r = (err e, r)
  refresh_valid now io token (ok c) r =
      refresh_stored now io token c (live now (lookup (refresh_key c.user_id) r)) r

  -- RefreshToken
  unfoldable pub refresh : ℕ → RedisIo → String → Dict Entry → TokenResult TokenPair × Dict Entry
  refresh now io token r =
      refresh_valid now io token (validate_token now io token refresh_token r) r

  abbrev pub expiry_of : TokenType → ℕ
  expiry_of access_token = s.access_expiry
  expiry_of refresh_token = s.refresh_expiry

  -- The end of `RevokeToken`: a refresh token's stored token goes as well.
  abbrev pub drop_stored :
      RedisIo → TokenType → TokenClaims → Dict Entry → TokenResult Unit × Dict Entry
  drop_stored io access_token c r = (ok tt, r)
  drop_stored io refresh_token c r =
      if not io.del_ok then (err delete_failed, r) else (ok tt, erase (refresh_key c.user_id) r)

  -- `RevokeToken` with the validated claims.
  abbrev pub revoke_valid :
      ℕ
      → RedisIo
      → String
      → TokenType
      → TokenResult TokenClaims
      → Dict Entry
      → TokenResult Unit × Dict Entry
  revoke_valid now io token type (err e) r = (err e, r)
  revoke_valid now io token type (ok c) r =
      if not io.set_ok
      then (err revoke_failed, r)
      else drop_stored io type c (
          insert (revoked_key token) (record { value = "revoked"; expires = now + expiry_of type })
            r)

  -- RevokeToken
  unfoldable pub revoke :
      ℕ → RedisIo → String → TokenType → Dict Entry → TokenResult Unit × Dict Entry
  revoke now io token type r = revoke_valid now io token type (validate_token now io token type r) r
