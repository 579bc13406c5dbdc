-- ===== src/Tests/Grants.antt =====
-- Tests of internal/service/authorization.go.
use lauth.Prelude.{
  ◌+◌, ◌≡◌, ◌≢◌, refl, sym, ap, ◌∙◌, inl, inr, true, some, [], ◌∷◌, ◌++◌, differ, Any, All,
}
use lauth.Prelude.Dict.{lookup}
use lauth.Oauth.Client.{OauthClient, AuthorizationCode, get_by_code}
use lauth.Oauth.Token.{
  refresh_token, TokenClaims, TokenResult, generate_token, generate_token_pair, validate_token,
  refresh,
}
use lauth.Oauth.Authorization.{
  Web, AuthorizationRequest, ok, ten_minutes, split_spaces, validate_scope, authorize,
}
use lauth.Oauth.Grants.{
  TokenRequest, TokenResponse, OauthState, CodesIo, join_spaces, handle_authorization_code_grant,
  process_authorization_code, validate_auth_code_request, generate_token_response,
  handle_refresh_token_grant,
}
use lauth.Oauth.Authorizing.{authorize-ok}
use lauth.Oauth.Granting.{Grants, IsIssued, handle_authorization_code_grant-ok}
use lauth.Oauth.Replay.{used_code_again}
use lauth.Oauth.Scopes.{handle_refresh_token_grant-ok}
use lauth.Tests.Oauth.{works, plain, stored, parse_known}

abbrev web : Web
web = record {
  query_unescape = λ t. some t;
  base_uri = λ u. some u;
  with_query = λ u q. u;
  id_token = λ u n. some "id";
}

abbrev pub client : OauthClient
client = record {
  client_id = "c";
  app_id = "a";
  grant_types = "authorization_code" ∷ [];
  redirect_uris = "https://app/cb" ∷ [];
  scopes = "read" ∷ "write" ∷ [];
  status = true;
}

abbrev ask : AuthorizationRequest
ask = record {
  response_type = "code";
  redirect_uri = "https://app/cb";
  scope = "read";
  state = "s";
  nonce = "";
}

abbrev code : AuthorizationCode
code = record {
  id = "1";
  code = "x=";
  client_id = "c";
  user_id = "u";
  redirect_uri = "https://app/cb";
  scope = "read";
  expires_at = 5 + ten_minutes;
  created_at = 5;
}

authorize-ok_example :
    (client.status ≡ true)
    × Any (λ t. t ≡ "authorization_code") client.grant_types
    × Any (λ u. u ≡ ask.redirect_uri) client.redirect_uris
    × All (λ t. Any (λ x. x ≡ t) client.scopes) (split_spaces ask.scope)
    × ((authorize web 5 "1" "x=" true "u" ask (some client) []).1 ≡ [] ++ code ∷ [])
unfolding authorize validate_scope split_spaces
authorize-ok_example = authorize-ok web 5 "1" "x=" true "u" ask client [] "https://app/cb" refl

abbrev exchange : TokenRequest
exchange = record {
  grant_type = "authorization_code";
  code = "x";
  redirect_uri = "https://app/cb";
  refresh = "";
  nonce = "";
}

abbrev state : OauthState
state = record { codes = code ∷ []; redis = [] }

abbrev db : CodesIo
db = record { read_ok = true; delete_ok = true }

abbrev tokens : TokenResponse
tokens = record {
  access = "access2";
  token_type = "Bearer";
  expires_in = 5;
  refresh = "refresh2";
  scope = "read";
  id_token = "";
}

handle_authorization_code_grant-ok_example :
    (c : AuthorizationCode) × Grants web 9 exchange client state.codes c
    × IsIssued web plain 9 client c tokens
unfolding handle_authorization_code_grant process_authorization_code validate_auth_code_request
    generate_token_response get_by_code generate_token_pair generate_token split_spaces
handle_authorization_code_grant-ok_example =
    handle_authorization_code_grant-ok web plain 9 db works exchange client state tokens refl

apart :
    (c : AuthorizationCode) → Any (λ d. d ≡ c) state.codes → All (λ d. d.code ≢ c.id) state.codes
apart c (inl e) =
    ((λ k. differ "x=" "1" refl (k ∙ ap (λ (d : AuthorizationCode). d.id) (sym e))), tt)
apart c (inr e) = absurd e

used_code_again_example :
    let st1 = (handle_authorization_code_grant web plain 9 db works exchange client state).1 in
    (st1.codes ≡ state.codes)
    × ((handle_authorization_code_grant web plain 9 db works exchange client st1).0 ≡ ok tokens)
unfolding handle_authorization_code_grant process_authorization_code validate_auth_code_request
    generate_token_response get_by_code generate_token_pair generate_token split_spaces
used_code_again_example =
    used_code_again web plain 9 db works exchange client state tokens apart refl

abbrev renew : TokenRequest
renew = record {
  grant_type = "refresh_token";
  code = "";
  redirect_uri = "";
  refresh = "R";
  nonce = "";
}

abbrev renewed : TokenResponse
renewed = record {
  access = "access2";
  token_type = "Bearer";
  expires_in = 5;
  refresh = "refresh2";
  scope = "read write";
  id_token = "";
}

abbrev signed_in : OauthState
signed_in = record { codes = []; redis = stored }

handle_refresh_token_grant-ok_example :
    (c : TokenClaims) × (validate_token plain 9 works renew.refresh refresh_token signed_in.redis
      ≡ TokenResult.ok c)
    × (c.app_id ≡ client.app_id)
    × (renewed.scope ≡ join_spaces client.scopes)
unfolding handle_refresh_token_grant validate_token refresh generate_token_pair generate_token
    parse_known lookup
handle_refresh_token_grant-ok_example =
    handle_refresh_token_grant-ok web plain 9 works renew client signed_in renewed refl
