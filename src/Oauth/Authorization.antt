-- ===== src/Oauth/Authorization.antt =====
-- internal/service/authorization.go. The client and the secret are what their tables have for the
-- request, and the user of an ID token is in the answer of the OIDC service.
use Prim.Native.Char.{Char, code}
use lauth.Prelude.{
  ℕ, ◌+◌, ◌*◌, String, ◌==◌, Bool, true, false, not, ◌||◌, Option, none, some, List, [], ◌∷◌, eqb,
  if◌then◌else◌,
}
use lauth.Oauth.Client.{OauthClient, AuthorizationCode, create_code}
use lauth.Oauth.Token.{TokenError, second}

-- What net/url and the OIDC service give: QueryUnescape, a URI that parses less its query, a URI
-- with query values, and an ID token for a user and a nonce.
pub record Web : Type 0 where
  pub query_unescape : String → Option String
  pub base_uri : String → Option String
  pub with_query : String → List (String × String) → String
  pub id_token : String → String → Option String

-- AuthorizationRequest
pub record AuthorizationRequest : Type 0 where
  pub response_type : String
  pub redirect_uri : String
  pub scope : String
  pub state : String
  pub nonce : String

pub data AuthError : Type 0 where
  invalid_client unsupported_grant_type invalid_redirect_uri invalid_scope invalid_grant : AuthError
  code_not_saved code_not_read bad_uri bad_code no_id_token : AuthError
  token_failed : TokenError → AuthError

pub data AuthResult (A : Type 0) : Type 0 where
  ok : A → AuthResult A
  err : AuthError → AuthResult A

-- The loop of validateRedirectURI and containsGrantType.
abbrev pub text_in : String → List String → Bool
text_in t [] = false
text_in t (x ∷ xs) = x == t || text_in t xs

abbrev pub push_first : Char → List String → List String
push_first c [] = String.◌∷◌ c String.[] ∷ []
push_first c (part ∷ parts) = String.◌∷◌ c part ∷ parts

-- strings.Split(s, " ")
unfoldable pub split_spaces : String → List String
split_spaces String.[] = String.[] ∷ []
split_spaces (String.◌∷◌ c s) =
    let parts = split_spaces s in
    if eqb (code c) b' ' then String.[] ∷ parts else push_first c parts

abbrev pub all_in : List String → List String → Bool
all_in [] allowed = true
all_in (t ∷ ts) allowed = if not (text_in t allowed) then false else all_in ts allowed

-- validateScope
unfoldable pub validate_scope : List String → String → Bool
validate_scope allowed scope = all_in (split_spaces scope) allowed

abbrev pub ten_minutes : ℕ
ten_minutes = 10 * 60 * second

module _ (web : Web) where
  -- The query of the redirect with the ID token, where one was asked for.
  abbrev pub add_id_token : Option String → String → List (String × String) → AuthResult String
  add_id_token none uri query = err no_id_token
  add_id_token (some t) uri query = ok (web.with_query uri (("id_token", t) ∷ query))

  -- The end of `Authorize` with the parsed redirect URI.
  abbrev pub redirect_parsed :
      Option String → String → AuthorizationRequest → String → AuthResult String
  redirect_parsed none user req code = err bad_uri
  redirect_parsed (some base) user req code =
      let query = ("code", code) ∷ (if req.state == "" then [] else ("state", req.state) ∷ []) in
      if req.response_type == "code id_token"
      then add_id_token (web.id_token user req.nonce) req.redirect_uri query
      else ok (web.with_query req.redirect_uri query)

  -- Authorize, for the client that GetByClientID gave; `saved` tells whether the code was saved.
  unfoldable pub authorize :
      ℕ
      → String
      → String
      → Bool
      → String
      → AuthorizationRequest
      → Option OauthClient
      → List AuthorizationCode
      → AuthResult String × List AuthorizationCode
  authorize now uuid random saved user req none codes = (err invalid_client, codes)
  authorize now uuid random saved user req (some client) codes =
      if not client.status
      then (err invalid_client, codes)
      else if not (text_in "authorization_code" client.grant_types)
      then (err unsupported_grant_type, codes)
      else if not (text_in req.redirect_uri client.redirect_uris)
      then (err invalid_redirect_uri, codes)
      else if not (validate_scope client.scopes req.scope)
      then (err invalid_scope, codes)
      else if not saved
      then (err code_not_saved, codes)
      else (
        redirect_parsed (web.base_uri req.redirect_uri) user req random,
        create_code uuid random
            (record {
              id = "";
              code = "";
              client_id = client.client_id;
              user_id = user;
              redirect_uri = req.redirect_uri;
              scope = req.scope;
              expires_at = now + ten_minutes;
              created_at = now;
            })
            codes,
      )
