-- ===== src/Oauth/Granting.antt =====
-- When `IssueToken` of internal/service/authorization.go grants tokens for a code.
use lauth.Prelude.{
  ℕ, ◌+◌, ◌/◌, ◌<◌, String, ◌==◌, eq_iff, ◌≡◌, refl, sym, ap, ◌∙◌, inl, inr, Bool, true, false,
  ◌&&◌, Option, none, some, List, [], ◌∷◌, arith, Any, ltb, if◌then◌else◌, Bool-cases,
}
use lauth.Prelude.Dict.{Dict}
use lauth.Oauth.Client.{OauthClient, AuthorizationCode, get_by_code, delete_code}
use lauth.Oauth.Token.{
  Entry, RedisIo, TokenClaims, TokenService, TokenPair, TokenResult, second, generate_token,
  generate_token_pair,
}
use lauth.Oauth.Refresh.{store_pair-ok}
use lauth.Oauth.Authorization.{Web, AuthError, AuthResult, ok, err}
use lauth.Oauth.Grants.{
  TokenRequest, TokenResponse, OauthState, CodesIo, padded, found_code, process_unescaped,
  validate_uris, process_authorization_code, validate_auth_code_request, with_id_token, respond,
  generate_token_response, delete_used, grant_checked, grant_code, handle_authorization_code_grant,
}

get_by_code-Any :
    (now : ℕ) (code : String) (codes : List AuthorizationCode) (c : AuthorizationCode)
    → get_by_code now code codes ≡ some c
    → Any (λ d. d ≡ c) codes × (c.code ≡ code) × (now < c.expires_at)
unfolding get_by_code
get_by_code-Any now code [] c h = cc
get_by_code-Any now code (d ∷ ds) c h = elim (Bool-cases (d.code == code && ltb now d.expires_at)) [
  | inl e ↦
      let q : d ≡ c = cc (simp e at h) in
      let same = ap (λ (x : AuthorizationCode). x.code) q in
      let time = ap (λ (x : AuthorizationCode). x.expires_at) q in
      (inl q, sym same ∙ ground (arith, eq_iff d.code code), ground (arith, eq_iff d.code code))
  | inr e ↦ let (a, b, t) = get_by_code-Any now code ds c (simp e at h) in (inr a, b, t)
]

process_unescaped-ok :
    (now : ℕ) (read_ok : Bool) (text : Option String) (codes : List AuthorizationCode)
    (c : AuthorizationCode)
    → process_unescaped now read_ok text codes ≡ ok c
    → (t : String) × (text ≡ some t) × (get_by_code now (padded t) codes ≡ some c)
process_unescaped-ok now read_ok none codes c h = cc
process_unescaped-ok now read_ok (some t) codes c h =
    (t, refl, found read_ok (get_by_code now (padded t) codes) h)
  where
    found : (b : Bool) (o : Option AuthorizationCode) → found_code b o ≡ ok c → o ≡ some c
    found true none h = cc
    found true (some d) h = cc
    found false o h = cc

-- The code is that of the request, and has not expired; its client is the one of the request,
-- and the two redirect URIs are the same less their queries.
pub record Grants (web : Web) (now : ℕ) (req : TokenRequest) (client : OauthClient)
    (codes : List AuthorizationCode) (c : AuthorizationCode) : Type 0 where
  pub stored : Any (λ d. d ≡ c) codes
  pub text : (t : String) × (web.query_unescape req.code ≡ some t) × (c.code ≡ padded t)
  pub live : now < c.expires_at
  pub client_id : c.client_id ≡ client.client_id
  pub uri :
      (u : String) × (web.base_uri req.redirect_uri ≡ some u)
      × (web.base_uri c.redirect_uri ≡ some u)

validate_uris-ok :
    (now : ℕ) (c : AuthorizationCode) (a b : Option String)
    → validate_uris now c a b ≡ none
    → (u : String) × (a ≡ some u) × (b ≡ some u)
validate_uris-ok now c none b h = cc
validate_uris-ok now c (some x) none h = cc
validate_uris-ok now c (some x) (some y) h = (x, refl, ap some (ground (arith, eq_iff y x)))

module _ (web : Web) (s : TokenService) where
  abbrev Answers : TokenPair → String → TokenResponse → Type 0
  Answers p scope t = (t.access ≡ p.access) × (t.refresh ≡ p.refresh) × (t.scope ≡ scope)

  with_id_token-Answers :
      (b : Bool) (o : Option String) (p : TokenPair) (scope : String) (t : TokenResponse)
      → with_id_token web s b o p scope ≡ ok t
      → Answers p scope t
  with_id_token-Answers false o p scope t h = (cc h, cc h, cc h)
  with_id_token-Answers true none p scope t h = (cc h, cc h, cc h)
  with_id_token-Answers true (some i) p scope t h = (cc h, cc h, cc h)

  -- The claims of a token of the kind for the user and the scope of the code, in the application of
  -- the client.
  abbrev pub claims_of : ℕ → OauthClient → AuthorizationCode → String → ℕ → TokenClaims
  claims_of now client c kind expiry = record {
    user_id = c.user_id;
    app_id = client.app_id;
    username = "";
    kind = kind;
    exp = (now + expiry) / second;
    expires_at = now + expiry;
    scope = c.scope;
  }

  -- Both tokens of the answer are signed for the code, and the answer names its scope.
  abbrev pub IsIssued : ℕ → OauthClient → AuthorizationCode → TokenResponse → Type 0
  IsIssued now client c t =
      (s.jwt.sign (claims_of now client c "access" s.access_expiry) ≡ some t.access)
      × (s.jwt.sign (claims_of now client c "refresh" s.refresh_expiry) ≡ some t.refresh)
      × (t.scope ≡ c.scope)

  respond-Answers :
      (c : AuthorizationCode) (req : TokenRequest) (x : TokenResult TokenPair × Dict Entry)
      (t : TokenResponse)
      → (respond web s c req x).0 ≡ ok t
      → (p : TokenPair) × (x.0 ≡ TokenResult.ok p) × Answers p c.scope t
  respond-Answers c req (TokenResult.err e, r) t h = cc h
  respond-Answers c req (TokenResult.ok p, r) t h =
      (p, refl, with_id_token-Answers _ _ p c.scope t h)

  generate_token_response-IsIssued :
      (now : ℕ) (io : RedisIo) (c : AuthorizationCode) (client : OauthClient) (req : TokenRequest)
      (r : Dict Entry) (t : TokenResponse)
      → (generate_token_response web s now io c client req r).0 ≡ ok t
      → IsIssued now client c t
  unfolding generate_token_response generate_token_pair generate_token
  generate_token_response-IsIssued now io c client req r t h =
      let (p, paired, (access, refresh, scope)) =
        respond-Answers c req (generate_token_pair s now io c.user_id client.app_id "" c.scope r) t
          h in
      let (a, b, _) = store_pair-ok s now io c.user_id _ _ r p paired in
      (a ∙ ap some (sym access), b ∙ ap some (sym refresh), scope)

  -- The codes that are left when `c` has been used: the code that its id spells is deleted.
  abbrev pub left : CodesIo → AuthorizationCode → List AuthorizationCode → List AuthorizationCode
  left db c codes = if db.delete_ok then delete_code c.id codes else codes

  delete_used-ok :
      (db : CodesIo) (c : AuthorizationCode) (codes : List AuthorizationCode)
      (x : AuthResult TokenResponse × Dict Entry) (t : TokenResponse)
      → (delete_used web s db c codes x).0 ≡ ok t
      → (x.0 ≡ ok t) × ((delete_used web s db c codes x).1.codes ≡ left db c codes)
  delete_used-ok db c codes (err e, r) t h = cc
  delete_used-ok db c codes (ok u, r) t h = (h, refl)

  grant_checked-ok :
      (now : ℕ) (db : CodesIo) (io : RedisIo) (req : TokenRequest) (client : OauthClient)
      (c : AuthorizationCode) (o : Option AuthError) (st : OauthState) (t : TokenResponse)
      → (grant_checked web s now db io req client c o st).0 ≡ ok t
      → (o ≡ none)
        × IsIssued now client c t
        × ((grant_checked web s now db io req client c o st).1.codes ≡ left db c st.codes)
  grant_checked-ok now db io req client c (some e) st t h = cc
  grant_checked-ok now db io req client c none st t h =
      let (answered, codes) =
        delete_used-ok db c st.codes (generate_token_response web s now io c client req st.redis) t
          h in
      (refl, generate_token_response-IsIssued now io c client req st.redis t answered, codes)

  grant_code-ok :
      (now : ℕ) (db : CodesIo) (io : RedisIo) (req : TokenRequest) (client : OauthClient)
      (v : AuthResult AuthorizationCode) (st : OauthState) (t : TokenResponse)
      → (grant_code web s now db io req client v st).0 ≡ ok t
      → (c : AuthorizationCode) × (v ≡ ok c)
        × (validate_auth_code_request web s now c req client ≡ none)
        × IsIssued now client c t
        × ((grant_code web s now db io req client v st).1.codes ≡ left db c st.codes)
  grant_code-ok now db io req client (err e) st t h = cc
  grant_code-ok now db io req client (ok c) st t h =
      let (valid, scope, codes) =
        grant_checked-ok now db io req client c (validate_auth_code_request web s now c req client)
          st t h in
      (c, refl, valid, scope, codes)

  validate-ok :
      (now : ℕ) (c : AuthorizationCode) (req : TokenRequest) (client : OauthClient)
      → validate_auth_code_request web s now c req client ≡ none
      → (c.client_id ≡ client.client_id)
        × (validate_uris now c (web.base_uri req.redirect_uri) (web.base_uri c.redirect_uri) ≡ none)
  unfolding validate_auth_code_request
  validate-ok now c req client h = elim (Bool-cases (c.client_id == client.client_id)) [
    | inl e ↦ ((eq_iff c.client_id client.client_id).0 e, simp e at h)
    | inr e ↦ cc (simp e at h)
  ]

  pub granted :
      (now : ℕ) (db : CodesIo) (io : RedisIo) (req : TokenRequest) (client : OauthClient)
      (st : OauthState) (t : TokenResponse)
      → (handle_authorization_code_grant web s now db io req client st).0 ≡ ok t
      → (c : AuthorizationCode) × Grants web now req client st.codes c
        × IsIssued now client c t
        × ((handle_authorization_code_grant web s now db io req client st).1.codes
            ≡ left db c st.codes)
  unfolding handle_authorization_code_grant process_authorization_code
  granted now db io req client st t h =
      let (c, processed, valid, scope, codes) = grant_code-ok now db io req client _ st t h in
      let (text, unescaped, found) =
        process_unescaped-ok now db.read_ok (web.query_unescape req.code) st.codes c processed in
      let (stored, same, live) = get_by_code-Any now (padded text) st.codes c found in
      let (mine, uris) = validate-ok now c req client valid in
      let uri =
        validate_uris-ok now c (web.base_uri req.redirect_uri) (web.base_uri c.redirect_uri) uris in
      (
        c,
        record {
          stored = stored;
          text = (text, unescaped, same);
          live = live;
          client_id = mine;
          uri = uri;
        },
        scope,
        codes,
      )

  -- A code grant that gives tokens is for a stored code that the request spells, that has not
  -- expired and was made for the same client and redirect URI, and both tokens are signed for the
  -- user and the scope of that code in the application of the client.
  pub handle_authorization_code_grant-ok :
      (now : ℕ) (db : CodesIo) (io : RedisIo) (req : TokenRequest) (client : OauthClient)
      (st : OauthState) (t : TokenResponse)
      → (handle_authorization_code_grant web s now db io req client st).0 ≡ ok t
      → (c : AuthorizationCode) × Grants web now req client st.codes c × IsIssued now client c t
  handle_authorization_code_grant-ok now db io req client st t h =
      let (c, grants, issued, _) = granted now db io req client st t h in (c, grants, issued)
