-- ===== src/Oauth/Grants.antt =====
-- internal/service/authorization.go: `IssueToken` and the two grants.
use Prim.Native.Char.{code}
use Prim.Native.String.{◌++◌}
use lauth.Prelude.{
  ℕ, ◌/◌, String, ◌==◌, Bool, true, false, not, Option, none, some, List, [], ◌∷◌, eqb, ltb,
  if◌then◌else◌,
}
use lauth.Prelude.Dict.{Dict}
use lauth.Oauth.Client.{OauthClient, AuthorizationCode, get_by_code, delete_code}
use lauth.Oauth.Token.{
  Entry, RedisIo, refresh_token, TokenClaims, TokenService, TokenPair, TokenResult, second,
  generate_token_pair, validate_token, refresh,
}
use lauth.Oauth.Authorization.{
  Web, AuthError, AuthResult, ok, err, invalid_client, unsupported_grant_type, invalid_grant,
  code_not_read, bad_uri, bad_code, no_id_token, token_failed, text_in, split_spaces,
}

-- TokenRequest; the client and its secret are looked up before.
pub record TokenRequest : Type 0 where
  pub grant_type : String
  pub code : String
  pub redirect_uri : String
  pub refresh : String
  pub nonce : String

-- TokenResponse
pub record TokenResponse : Type 0 where
  pub access : String
  pub token_type : String
  pub expires_in : ℕ
  pub refresh : String
  pub scope : String
  pub id_token : String

-- The tables that the grants use.
pub record OauthState : Type 0 where
  pub codes : List AuthorizationCode
  pub redis : Dict Entry

-- Which calls of the database succeed.
pub record CodesIo : Type 0 where
  pub read_ok : Bool
  pub delete_ok : Bool

-- strings.Join(texts, " ")
abbrev pub join_spaces : List String → String
join_spaces [] = ""
join_spaces (t ∷ []) = t
join_spaces (t ∷ u ∷ ts) = t ++ (" " ++ join_spaces (u ∷ ts))

-- strings.HasSuffix(s, "=")
abbrev pub ends_padded : String → Bool
ends_padded String.[] = false
ends_padded (String.◌∷◌ c String.[]) = eqb (code c) b'='
ends_padded (String.◌∷◌ c (String.◌∷◌ d s)) = ends_padded (String.◌∷◌ d s)

abbrev pub padded : String → String
padded s = if ends_padded s then s else s ++ "="

-- `processAuthorizationCode` with what GetByCode gives.
abbrev pub found_code : Bool → Option AuthorizationCode → AuthResult AuthorizationCode
found_code false o = err code_not_read
found_code true none = err invalid_grant
found_code true (some c) = ok c

-- `processAuthorizationCode` with the code less its escapes.
abbrev pub process_unescaped :
    ℕ → Bool → Option String → List AuthorizationCode → AuthResult AuthorizationCode
process_unescaped now read_ok none codes = err bad_code
process_unescaped now read_ok (some text) codes =
    found_code read_ok (get_by_code now (padded text) codes)

-- The two URIs of `validateAuthCodeRequest` less their queries, and the time of the code.
abbrev pub validate_uris : ℕ → AuthorizationCode → Option String → Option String → Option AuthError
validate_uris now c none stored = some bad_uri
validate_uris now c (some requested) none = some bad_uri
validate_uris now c (some requested) (some stored) =
    if not (stored == requested)
    then some invalid_grant
    else if ltb c.expires_at now
    then some invalid_grant
    else none

module _ (web : Web) (s : TokenService) where
  -- processAuthorizationCode
  unfoldable pub process_authorization_code :
      ℕ → Bool → String → List AuthorizationCode → AuthResult AuthorizationCode
  process_authorization_code now read_ok code codes =
      process_unescaped now read_ok (web.query_unescape code) codes

  -- validateAuthCodeRequest
  unfoldable pub validate_auth_code_request :
      ℕ → AuthorizationCode → TokenRequest → OauthClient → Option AuthError
  validate_auth_code_request now c req client =
      if not (c.client_id == client.client_id)
      then some invalid_grant
      else validate_uris now c (web.base_uri req.redirect_uri) (web.base_uri c.redirect_uri)

  abbrev pub response : TokenPair → String → String → TokenResponse
  response p scope id_token = record {
    access = p.access;
    token_type = "Bearer";
    expires_in = p.access_expire_in / second;
    refresh = p.refresh;
    scope = scope;
    id_token = id_token;
  }

  -- The ID token of `generateTokenResponse`, where the scope asks for one.
  abbrev pub with_id_token : Bool → Option String → TokenPair → String → AuthResult TokenResponse
  with_id_token false id_token p scope = ok (response p scope "")
  with_id_token true none p scope = err no_id_token
  with_id_token true (some t) p scope = ok (response p scope t)

  -- `generateTokenResponse` with the pair of tokens.
  abbrev pub respond :
      AuthorizationCode
      → TokenRequest
      → TokenResult TokenPair × Dict Entry
      → AuthResult TokenResponse × Dict Entry
  respond c req (TokenResult.err e, r) = (err (token_failed e), r)
  respond c req (TokenResult.ok p, r) = (
    with_id_token (text_in "openid" (split_spaces c.scope)) (web.id_token c.user_id req.nonce) p
        c.scope,
    r,
  )

  -- generateTokenResponse
  unfoldable pub generate_token_response :
      ℕ
      → RedisIo
      → AuthorizationCode
      → OauthClient
      → TokenRequest
      → Dict Entry
      → AuthResult TokenResponse × Dict Entry
  generate_token_response now io c client req r =
      respond c req (generate_token_pair s now io c.user_id client.app_id "" c.scope r)

  -- The end of `handleAuthorizationCodeGrant`: the code is deleted, by its id.
  abbrev pub delete_used :
      CodesIo
      → AuthorizationCode
      → List AuthorizationCode
      → AuthResult TokenResponse × Dict Entry
      → AuthResult TokenResponse × OauthState
  delete_used db c codes (err e, r) = (err e, record { codes = codes; redis = r })
  delete_used db c codes (ok t, r) =
      (ok t, record { codes = if db.delete_ok then delete_code c.id codes else codes; redis = r })

  abbrev pub grant_checked :
      ℕ
      → CodesIo
      → RedisIo
      → TokenRequest
      → OauthClient
      → AuthorizationCode
      → Option AuthError
      → OauthState
      → AuthResult TokenResponse × OauthState
  grant_checked now db io req client c (some e) st = (err e, st)
  grant_checked now db io req client c none st =
      delete_used db c st.codes (generate_token_response now io c client req st.redis)

  abbrev pub grant_code :
      ℕ
      → CodesIo
      → RedisIo
      → TokenRequest
      → OauthClient
      → AuthResult AuthorizationCode
      → OauthState
      → AuthResult TokenResponse × OauthState
  grant_code now db io req client (err e) st = (err e, st)
  grant_code now db io req client (ok c) st =
      grant_checked now db io req client c (validate_auth_code_request now c req client) st

  -- handleAuthorizationCodeGrant
  unfoldable pub handle_authorization_code_grant :
      ℕ
      → CodesIo
      → RedisIo
      → TokenRequest
      → OauthClient
      → OauthState
      → AuthResult TokenResponse × OauthState
  handle_authorization_code_grant now db io req client st =
      grant_code now db io req client (process_authorization_code now db.read_ok req.code st.codes)
        st

  abbrev pub refreshed_response :
      OauthClient
      → TokenResult TokenPair × Dict Entry
      → OauthState
      → AuthResult TokenResponse × OauthState
  refreshed_response client (TokenResult.err e, r) st =
      (err (token_failed e), record st { redis = r })
  refreshed_response client (TokenResult.ok p, r) st =
      (ok (response p (join_spaces client.scopes) ""), record st { redis = r })

  abbrev pub grant_refresh :
      ℕ
      → RedisIo
      → TokenRequest
      → OauthClient
      → TokenResult TokenClaims
      → OauthState
      → AuthResult TokenResponse × OauthState
  grant_refresh now io req client (TokenResult.err e) st = (err invalid_grant, st)
  grant_refresh now io req client (TokenResult.ok c) st =
      if not (c.app_id == client.app_id)
      then (err invalid_grant, st)
      else refreshed_response client (refresh s now io req.refresh st.redis) st

  -- handleRefreshTokenGrant
  unfoldable pub handle_refresh_token_grant :
      ℕ → RedisIo → TokenRequest → OauthClient → OauthState → AuthResult TokenResponse × OauthState
  handle_refresh_token_grant now io req client st =
      grant_refresh now io req client (validate_token s now io req.refresh refresh_token st.redis)
        st

  -- IssueToken, with the client and whether its secret is one of the table's.
  unfoldable pub issue_token :
      ℕ
      → CodesIo
      → RedisIo
      → TokenRequest
      → Option OauthClient
      → Bool
      → OauthState
      → AuthResult TokenResponse × OauthState
  issue_token now db io req none secret st = (err invalid_client, st)
  issue_token now db io req (some client) secret st =
      if not secret
      then (err invalid_client, st)
      else if req.grant_type == "authorization_code"
      then handle_authorization_code_grant now db io req client st
      else if req.grant_type == "refresh_token"
      then handle_refresh_token_grant now io req client st
      else (err unsupported_grant_type, st)
