-- ===== src/Oauth/Scopes.antt =====
-- The scope that internal/service/authorization.go answers with refreshed tokens.
use lauth.Prelude.{◌==◌, eq_iff, ◌≡◌, refl, inl, inr, ℕ, Bool-cases}
use lauth.Prelude.Dict.{Dict}
use lauth.Oauth.Client.{OauthClient}
use lauth.Oauth.Token.{
  Entry, RedisIo, refresh_token, TokenClaims, TokenService, TokenPair, TokenResult, validate_token,
}
use lauth.Oauth.Authorization.{Web, ok}
use lauth.Oauth.Grants.{
  TokenRequest, TokenResponse, OauthState, join_spaces, refreshed_response, grant_refresh,
  handle_refresh_token_grant,
}

module _ (web : Web) (s : TokenService) where
  refreshed-scope :
      (client : OauthClient) (x : TokenResult TokenPair × Dict Entry) (st : OauthState)
      (t : TokenResponse)
      → (refreshed_response web s client x st).0 ≡ ok t
      → t.scope ≡ join_spaces client.scopes
  refreshed-scope client (TokenResult.err e, r) st t h = cc
  refreshed-scope client (TokenResult.ok p, r) st t h = cc

  grant_refresh-ok :
      (now : ℕ) (io : RedisIo) (req : TokenRequest) (client : OauthClient)
      (v : TokenResult TokenClaims) (st : OauthState) (t : TokenResponse)
      → (grant_refresh web s now io req client v st).0 ≡ ok t
      → (c : TokenClaims) × (v ≡ TokenResult.ok c)
        × (c.app_id ≡ client.app_id)
        × (t.scope ≡ join_spaces client.scopes)
  grant_refresh-ok now io req client (TokenResult.err e) st t h = cc
  grant_refresh-ok now io req client (TokenResult.ok c) st t h =
      elim (Bool-cases (c.app_id == client.app_id)) [
        | inl e ↦ (
          c,
          refl,
          (eq_iff c.app_id client.app_id).0 e,
          refreshed-scope client _ st t (simp e at h),
        )
        | inr e ↦ cc (simp e at h)
      ]

  -- A refresh grant that gives tokens was for a valid refresh token of the client's application,
  -- and answers all scopes of the client, whatever the scope of the token is.
  pub handle_refresh_token_grant-ok :
      (now : ℕ) (io : RedisIo) (req : TokenRequest) (client : OauthClient) (st : OauthState)
      (t : TokenResponse)
      → (handle_refresh_token_grant web s now io req client st).0 ≡ ok t
      → (c : TokenClaims) × (validate_token s now io req.refresh refresh_token st.redis
          ≡ TokenResult.ok c)
        × (c.app_id ≡ client.app_id)
        × (t.scope ≡ join_spaces client.scopes)
  unfolding handle_refresh_token_grant
  handle_refresh_token_grant-ok now io req client st t h =
      grant_refresh-ok now io req client _ st t h
