-- ===== src/Oauth/Client.antt =====
-- internal/model/oauth.go and internal/repository/authorization_code.go: the clients, and the table
-- of authorization codes.
use lauth.Prelude.{
  ℕ, String, ◌==◌, Bool, not, ◌&&◌, Option, none, some, List, [], ◌∷◌, ◌++◌, keep, ltb,
  if◌then◌else◌,
}

-- OAuthClient
pub record OauthClient : Type 0 where
  pub client_id : String
  pub app_id : String
  pub grant_types : List String
  pub redirect_uris : List String
  pub scopes : List String
  pub status : Bool

-- AuthorizationCode
pub record AuthorizationCode : Type 0 where
  pub id : String
  pub code : String
  pub client_id : String
  pub user_id : String
  pub redirect_uri : String
  pub scope : String
  pub expires_at : ℕ
  pub created_at : ℕ

-- BeforeCreate, with the random id and the random code.
abbrev pub before_create : String → String → AuthorizationCode → AuthorizationCode
before_create uuid random c = record c {
  id = if c.id == "" then uuid else c.id;
  code = if c.code == "" then random else c.code;
}

-- Create
unfoldable pub create_code :
    String → String → AuthorizationCode → List AuthorizationCode → List AuthorizationCode
create_code uuid random c codes = codes ++ before_create uuid random c ∷ []

-- GetByCode: a code whose time has come is not found.
unfoldable pub get_by_code : ℕ → String → List AuthorizationCode → Option AuthorizationCode
get_by_code now code [] = none
get_by_code now code (c ∷ cs) =
    let rest = get_by_code now code cs in
    if c.code == code && ltb now c.expires_at then some c else rest

-- Delete, by the code.
unfoldable pub delete_code : String → List AuthorizationCode → List AuthorizationCode
delete_code code codes = keep (λ c. not (c.code == code)) codes

-- DeleteExpired
unfoldable pub delete_expired : ℕ → List AuthorizationCode → List AuthorizationCode
delete_expired now codes = keep (λ c. ltb now c.expires_at) codes
