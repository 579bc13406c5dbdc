-- ===== src/Oauth/Replay.antt =====
-- What internal/service/authorization.go does with a code that has been used.
use lauth.Prelude.{
  ℕ, String, ◌≡◌, ◌≢◌, refl, sym, ap, ◌∙◌, inl, inr, Option, none, some, List, [], ◌∷◌, All, Any,
  keep, Bool-cases, text-cases,
}
use lauth.Prelude.Dict.{Dict}
use lauth.Oauth.Client.{OauthClient, AuthorizationCode, delete_code}
use lauth.Oauth.Token.{
  Entry, RedisIo, access_token, refresh_token, TokenService, TokenPair, TokenResult, claims_for,
  generate_token, store_pair, generate_token_pair,
}
use lauth.Oauth.Authorization.{Web, AuthError, AuthResult, ok, err}
use lauth.Oauth.Grants.{
  TokenRequest, TokenResponse, OauthState, CodesIo, process_authorization_code,
  validate_auth_code_request, respond, generate_token_response, delete_used, grant_checked,
  grant_code, handle_authorization_code_grant,
}
use lauth.Oauth.Granting.{granted}

delete_code-none :
    (x : String) (codes : List AuthorizationCode)
    → All (λ d. d.code ≢ x) codes
    → delete_code x codes ≡ codes
unfolding delete_code keep
delete_code-none x [] h = refl
delete_code-none x (d ∷ ds) h = elim (text-cases d.code x) [
  | inl e ↦ absurd (h.0 e)
  | inr n ↦ rw n.1 (ap (λ l. d ∷ l) (delete_code-none x ds h.1))
]

module _ (web : Web) (s : TokenService) where
  used_code_stays :
      (now : ℕ) (db : CodesIo) (io : RedisIo) (req : TokenRequest) (client : OauthClient)
      (st : OauthState) (t : TokenResponse)
      → ((c : AuthorizationCode) → Any (λ d. d ≡ c) st.codes → All (λ d. d.code ≢ c.id) st.codes)
      → (handle_authorization_code_grant web s now db io req client st).0 ≡ ok t
      → (handle_authorization_code_grant web s now db io req client st).1.codes ≡ st.codes
  used_code_stays now db io req client st t apart h =
      let (c, grants, _, codes) = granted web s now db io req client st t h in
      let same = delete_code-none c.id st.codes (apart c grants.stored) in
      codes ∙ (elim (Bool-cases db.delete_ok) [ inl e ↦ simp e same | inr e ↦ simp e ])

  -- What is answered does not depend on Redis.
  store_pair-answer :
      (now : ℕ) (io : RedisIo) (user : String) (a b : Option String) (r r' : Dict Entry)
      → (store_pair s now io user a b r).0 ≡ (store_pair s now io user a b r').0
  store_pair-answer now io user none b r r' = refl
  store_pair-answer now io user (some a) none r r' = refl
  store_pair-answer now io user (some a) (some b) r r' = elim (Bool-cases io.set_ok) [
    | inl e ↦ simp e
    | inr e ↦ simp e
  ]

  respond-answer :
      (c : AuthorizationCode) (req : TokenRequest) (x : TokenResult TokenPair) (r r' : Dict Entry)
      → (respond web s c req (x, r)).0 ≡ (respond web s c req (x, r')).0
  respond-answer c req (TokenResult.err e) r r' = refl
  respond-answer c req (TokenResult.ok p) r r' = refl

  response-answer :
      (now : ℕ) (io : RedisIo) (c : AuthorizationCode) (client : OauthClient) (req : TokenRequest)
      (r r' : Dict Entry)
      → (generate_token_response web s now io c client req r).0
        ≡ (generate_token_response web s now io c client req r').0
  unfolding generate_token_response generate_token_pair
  response-answer now io c client req r r' =
      let a =
        generate_token s (claims_for c.user_id client.app_id "" access_token c.scope)
          s.access_expiry now in
      let b =
        generate_token s (claims_for c.user_id client.app_id "" refresh_token c.scope)
          s.refresh_expiry now in
      let x = store_pair s now io c.user_id a b r in
      let y = store_pair s now io c.user_id a b r' in
      ap (λ z. (respond web s c req (z, x.1)).0) (store_pair-answer now io c.user_id a b r r')
      ∙ respond-answer c req y.0 x.1 y.1

  delete_used-answer :
      (db : CodesIo) (c : AuthorizationCode) (codes : List AuthorizationCode)
      (x : AuthResult TokenResponse) (r : Dict Entry)
      → (delete_used web s db c codes (x, r)).0 ≡ x
  delete_used-answer db c codes (err e) r = refl
  delete_used-answer db c codes (ok t) r = refl

  grant_code-answer :
      (now : ℕ) (db : CodesIo) (io : RedisIo) (req : TokenRequest) (client : OauthClient)
      (v : AuthResult AuthorizationCode) (codes : List AuthorizationCode) (r r' : Dict Entry)
      → (grant_code web s now db io req client v (record { codes = codes; redis = r })).0
        ≡ (grant_code web s now db io req client v (record { codes = codes; redis = r' })).0
  grant_code-answer now db io req client (err e) codes r r' = refl
  grant_code-answer now db io req client (ok c) codes r r' =
      checked (validate_auth_code_request web s now c req client)
    where
      checked :
          (o : Option AuthError)
          → (grant_checked web s now db io req client c o (record { codes = codes; redis = r })).0
            ≡ (grant_checked web s now db io req client c o
                (record { codes = codes; redis = r' })).0
      checked (some e) = refl
      checked none =
          let x = generate_token_response web s now io c client req r in
          let y = generate_token_response web s now io c client req r' in
          delete_used-answer db c codes x.0 x.1
          ∙ response-answer now io c client req r r'
          ∙ sym (delete_used-answer db c codes y.0 y.1)

  -- A code is not used up: where no code is spelled like the id of one, the same code grant
  -- answers tokens a second time, and no code is ever deleted by it.
  pub used_code_again :
      (now : ℕ) (db : CodesIo) (io : RedisIo) (req : TokenRequest) (client : OauthClient)
      (st : OauthState) (t : TokenResponse)
      → ((c : AuthorizationCode) → Any (λ d. d ≡ c) st.codes → All (λ d. d.code ≢ c.id) st.codes)
      → (handle_authorization_code_grant web s now db io req client st).0 ≡ ok t
      → let st1 = (handle_authorization_code_grant web s now db io req client st).1 in
        (st1.codes ≡ st.codes)
        × ((handle_authorization_code_grant web s now db io req client st1).0 ≡ ok t)
  unfolding handle_authorization_code_grant
  used_code_again now db io req client st t apart h =
      let st1 = (handle_authorization_code_grant web s now db io req client st).1 in
      let same = used_code_stays now db io req client st t apart h in
      let again : (handle_authorization_code_grant web s now db io req client
            (record { codes = st.codes; redis = st1.redis })).0
          ≡ ok t =
        grant_code-answer now db io req client
          (process_authorization_code web s now db.read_ok req.code st.codes) st.codes st1.redis
          st.redis
        ∙ h in
      (
        same,
        ap
              (λ cs.
                (handle_authorization_code_grant web s now db io req client
                  (record { codes = cs; redis = st1.redis })).0)
              same
            ∙ again,
      )
