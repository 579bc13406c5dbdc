-- ===== src/Oauth/Authorizing.antt =====
-- What `Authorize` of internal/service/authorization.go checks and stores.
use lauth.Prelude.{
  ℕ, ◌+◌, String, eq_iff, ◌≡◌, refl, ◌↔◌, inl, inr, Bool, true, some, List, [], ◌∷◌, ◌++◌, arith,
  All, Any, Bool-cases,
}
use lauth.Oauth.Client.{OauthClient, AuthorizationCode, create_code}
use lauth.Oauth.Authorization.{
  Web, ok, AuthorizationRequest, text_in, split_spaces, all_in, validate_scope, authorize,
  ten_minutes,
}

text_in_iff : (t : String) (xs : List String) → (text_in t xs ≡ true) ↔ Any (λ x. x ≡ t) xs
text_in_iff t [] = (λ h. cc, λ h. absurd h)
text_in_iff t (x ∷ xs) = ground (arith, eq_iff x t, text_in_iff t xs)

all_in-All : (ts xs : List String) → all_in ts xs ≡ true → All (λ t. Any (λ x. x ≡ t) xs) ts
all_in-All [] xs h = tt
all_in-All (t ∷ ts) xs h = elim (Bool-cases (text_in t xs)) [
  | inl e ↦ ((text_in_iff t xs).0 e, all_in-All ts xs (simp e at h))
  | inr e ↦ cc (simp e at h)
]

-- Authorize gives a redirect only for a client that exists and is enabled, with the grant type,
-- the redirect URI and every scope of the request among its own, and it has then stored one code
-- for that client, user and scope, which lives for ten minutes.
pub authorize-ok :
    (web : Web) (now : ℕ) (uuid random : String) (saved : Bool) (user : String)
    (req : AuthorizationRequest) (client : OauthClient) (codes : List AuthorizationCode)
    (url : String)
    → (authorize web now uuid random saved user req (some client) codes).0 ≡ ok url
    → (client.status ≡ true)
      × Any (λ t. t ≡ "authorization_code") client.grant_types
      × Any (λ u. u ≡ req.redirect_uri) client.redirect_uris
      × All (λ t. Any (λ x. x ≡ t) client.scopes) (split_spaces req.scope)
      × ((authorize web now uuid random saved user req (some client) codes).1
          ≡ codes
            ++ record {
              id = uuid;
              code = random;
              client_id = client.client_id;
              user_id = user;
              redirect_uri = req.redirect_uri;
              scope = req.scope;
              expires_at = now + ten_minutes;
              created_at = now;
            }
              ∷ [])
unfolding authorize validate_scope create_code
authorize-ok web now uuid random saved user req client codes url h =
    elim (Bool-cases client.status) [
      | inr e ↦ cc (simp e at h)
      | inl e ↦ elim (Bool-cases (text_in "authorization_code" client.grant_types)) [
        | inr f ↦ cc (simp (e, f) at h)
        | inl f ↦ elim (Bool-cases (text_in req.redirect_uri client.redirect_uris)) [
          | inr g ↦ cc (simp (e, f, g) at h)
          | inl g ↦ elim (Bool-cases (all_in (split_spaces req.scope) client.scopes)) [
            | inr k ↦ cc (simp (e, f, g, k) at h)
            | inl k ↦ elim (Bool-cases saved) [
              | inr l ↦ cc (simp (e, f, g, k, l) at h)
              | inl l ↦ (
                e,
                (text_in_iff _ client.grant_types).0 f,
                (text_in_iff _ client.redirect_uris).0 g,
                all_in-All _ client.scopes k,
                simp (e, f, g, k, l) refl,
              )
            ]
          ]
        ]
      ]
    ]
