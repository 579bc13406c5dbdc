-- ===== src/Accounts/Register.antt =====
-- Register of internal/service/auth_account.go.
use lauth.Prelude.{String, not, ◌&&◌, Option, none, some, List, if◌then◌else◌}
use lauth.Prelude.Dict.{Dict}
use lauth.Accounts.Users.{User, Bcrypt, UserError, get_by_username, create_user}
use lauth.Accounts.Login.{
  Realm, SignInIo, Handled, SignIn, signed_in, plugins_required, refused, app_not_found,
  user_already_exists, user_failed, verification_failed, token_failed, is_empty,
  handle_verification,
}
use lauth.Oauth.Token.{Entry, TokenService, TokenPair, TokenResult, generate_token_pair}
use lauth.Oauth.Token
use lauth.Sessions.Tables.{Store, VerifyError, Answer, ok, err, pending}
use lauth.Sessions.Service.{update_session_user_id}
use lauth.Sessions.Status.{Manager}
use lauth.Sessions.Clearing.{clear_verification}

module _ {C : Type 0} where
  abbrev pub with_pair : TokenResult TokenPair × Dict Entry → Realm C → SignIn × Realm C
  with_pair (Token.err e, redis) realm = (refused (token_failed e), record realm { redis = redis })
  with_pair (Token.ok pair, redis) realm = (signed_in pair, record realm { redis = redis })

  -- `Register` from ClearVerification on.
  abbrev pub cleared :
      TokenService → SignInIo → User → Option VerifyError × Store C → Realm C → SignIn × Realm C
  cleared s io u (some e, store) realm =
      (refused (verification_failed e), record realm { store = store })
  cleared s io u (none, store) realm =
      with_pair
        (generate_token_pair s io.now io.redis_io u.id u.app_id u.username "read" realm.redis)
        (record realm { store = store })

  -- `Register` with the user created: the session gets the user, a failure of which is only logged,
  -- and the statuses are cleared. The profile that is created next is not part of the state.
  abbrev pub created :
      TokenService
      → SignInIo
      → String
      → Handled C
      → User
      → Option UserError × List User
      → Realm C
      → SignIn × Realm C
  created s io app h u (some e, users) realm = (refused user_failed, realm)
  created s io app h u (none, users) realm =
      let store = (update_session_user_id io.naming h.session.id u.id realm.store).1 in
      cleared s io u (clear_verification io.clearing app u.id "register" store)
        (record realm { users = users; store = store })

  abbrev pub registered :
      Bcrypt
      → TokenService
      → SignInIo
      → String
      → String
      → User
      → Answer (Handled C)
      → Realm C
      → SignIn × Realm C
  registered b s io uuid app u (err e) realm = (refused (verification_failed e), realm)
  registered b s io uuid app u (ok h) realm =
      if not (is_empty h.plugins) && not h.verify_status.completed_all
      then (plugins_required h.plugins h.verify_status h.session.id, realm)
      else created s io app h (record u { id = uuid }) (create_user b io.user_io uuid u realm.users)
          realm

  abbrev pub register_new :
      Bcrypt
      → TokenService
      → Manager C
      → SignInIo
      → String
      → String
      → User
      → C
      → Option User
      → Realm C
      → SignIn × Realm C
  register_new b s mgr io uuid app u ctx (some v) realm = (refused user_already_exists, realm)
  register_new b s mgr io uuid app u ctx none realm =
      let (answer, store) = handle_verification io mgr app pending "register" ctx realm.store in
      registered b s io uuid app u answer (record realm { store = store })

  -- Register, for a user without an id and with the uuid that it gets. The session of every
  -- registration is that of the user `pending`.
  unfoldable pub register :
      Bcrypt
      → TokenService
      → Manager C
      → SignInIo
      → String
      → String
      → User
      → C
      → Realm C
      → SignIn × Realm C
  register b s mgr io uuid app u ctx realm =
      if not io.app_ok
      then (refused user_failed, realm)
      else if not io.app_known
      then (refused app_not_found, realm)
      else if not io.read_ok
      then (refused user_failed, realm)
      else register_new b s mgr io uuid app u ctx (get_by_username app u.username realm.users) realm
