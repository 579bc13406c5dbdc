-- ===== src/Oauth/Keys.antt =====
-- The keys under which internal/service/token.go keeps tokens in Redis.
use text.Mathlib.TextLemmas.{append_inj}
use lauth.Prelude.{String, ◌≡◌, ◌≢◌, refl, differ}
use lauth.Oauth.Token.{refresh_key, revoked_key}

-- The two families of keys never meet, and a key is of one token or user.
pub refresh_key-revoked_key : (user token : String) → refresh_key user ≢ revoked_key token
refresh_key-revoked_key user token e =
    differ "refresh_token:" "revoked_token:" refl (append_inj e refl).0

pub revoked_key_inj : (a b : String) → revoked_key a ≡ revoked_key b → a ≡ b
revoked_key_inj a b e = (append_inj {s₁ = "revoked_token:"} {s₂ = "revoked_token:"} e refl).1
