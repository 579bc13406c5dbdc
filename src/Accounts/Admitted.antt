-- ===== src/Accounts/Admitted.antt =====
-- Whom Login of internal/service/auth_account.go lets in.
use lauth.Prelude.{String, ◌≡◌, ◌⊎◌, true, false, Option, none, some, eqb}
use lauth.Prelude.Dict.{Dict}
use lauth.Accounts.Users.{User, Bcrypt, disabled}
use lauth.Accounts.Login.{Realm, SignInIo, Handled, is_empty, handle_verification, skips}
use lauth.Oauth.Token.{TokenService, TokenPair, generate_token_pair}
use lauth.Oauth.Token
use lauth.Sessions.Tables.{Answer, ok, err}
use lauth.Sessions.Status.{Manager}

module _ {C : Type 0} where
  -- No plugin is required, or the verification is completed.
  abbrev pub IsVerified : Handled C → Type 0
  IsVerified h = (is_empty h.plugins ≡ true) ⊎ (h.verify_status.completed_all ≡ true)

  -- handleVerification finds the user verified.
  abbrev pub Verified : Answer (Handled C) → Type 0
  Verified (err e) = ⊥
  Verified (ok h) = IsVerified h

  -- What Login asks of a user.
  abbrev pub Admits :
      Bcrypt
      → TokenService
      → Manager C
      → SignInIo
      → String
      → String
      → C
      → Realm C
      → TokenPair
      → Option User
      → Type 0
  Admits b s mgr io app password ctx realm pair none = ⊥
  Admits b s mgr io app password ctx realm pair (some u) =
      (b.compare u.password password ≡ true)
      × (eqb u.status disabled ≡ false)
      × ((skips io u realm ≡ true)
          ⊎ Verified (handle_verification io mgr app u.id "login" ctx realm.store).0)
      × ((generate_token_pair s io.now io.redis_io u.id u.app_id u.username "read" realm.redis).0
          ≡ Token.ok pair)
