-- ===== src/Accounts/Login.antt =====
-- internal/service/auth_account.go: signing in and registering, over the users, the verification
-- sessions, the super administrators and the tokens.
use lauth.Prelude.{
  ℕ, String, ◌==◌, Bool, true, false, not, ◌&&◌, Option, none, some, List, [], ◌∷◌, eqb,
  if◌then◌else◌,
}
use lauth.Prelude.Dict.{Dict}
use lauth.Access.SuperAdmins.{is_super_admin}
use lauth.Accounts.Users.{User, Bcrypt, UserIo, disabled, get_by_username}
use lauth.Oauth.Token.{
  Entry, RedisIo, TokenService, TokenPair, TokenError, TokenResult, generate_token_pair,
}
use lauth.Oauth.Token
use lauth.Sessions.Tables.{VerificationSession, Store, Env, VerifyError, Answer, ok, err}
use lauth.Sessions.Service.{create_session}
use lauth.Sessions.Status.{Manager}
use lauth.Sessions.Clearing.{clear_verification}
use lauth.Sessions.Requirements.{Requirement, get_required_plugins}
use lauth.Sessions.Walk.{VerificationStatus}
use lauth.Sessions.Validation.{validate_plugin_status}

-- What the account service works on.
pub record Realm (C : Type 0) : Type 0 where
  pub users : List User
  pub admins : List String
  pub store : Store C
  pub redis : Dict Entry

-- What one request meets: the time, which calls of the database and of Redis succeed, and the
-- environments of the calls of the verification service.
pub record SignInIo : Type 0 where
  pub now : ℕ
  pub app_ok : Bool
  pub app_known : Bool
  pub read_ok : Bool
  pub admin_ok : Bool
  pub login_ok : Bool
  pub user_io : UserIo
  pub redis_io : RedisIo
  pub opening : Env
  pub checking : Env
  pub naming : Env
  pub clearing : Env

pub data SignInError : Type 0 where
  app_not_found user_already_exists invalid_credentials account_disabled user_failed : SignInError
  verification_failed : VerifyError → SignInError
  token_failed : TokenError → SignInError

-- What handleVerification finds.
pub record Handled (C : Type 0) : Type 0 where
  pub session : VerificationSession C
  pub plugins : List Requirement
  pub verify_status : VerificationStatus

-- ExtendedLoginResponse, or an error; plugins_required stands for ErrPluginRequired with its
-- response.
pub data SignIn : Type 0 where
  signed_in : TokenPair → SignIn
  plugins_required : List Requirement → VerificationStatus → String → SignIn
  refused : SignInError → SignIn

abbrev pub is_empty : List Requirement → Bool
is_empty [] = true
is_empty (r ∷ rs) = false

-- UpdateLastLogin
unfoldable pub update_last_login : String → ℕ → List User → List User
update_last_login id now [] = []
update_last_login id now (u ∷ us) =
    let rest = update_last_login id now us in
    if u.id == id then record u { last_login_at = some now } ∷ rest else u ∷ rest

-- What handleVerification answers, once the session is open.
abbrev pub handled :
    {C : Type 0}
    → VerificationSession C
    → Answer (List Requirement)
    → Answer VerificationStatus
    → Answer (Handled C)
handled s (err e) status = err e
handled s (ok rs) (err e) = err e
handled s (ok rs) (ok status) = ok (record { session = s; plugins = rs; verify_status = status })

module _ {C : Type 0} where
  -- `handleVerification` from the open session on.
  abbrev pub handle_opened :
      SignInIo
      → Manager C
      → String
      → String
      → String
      → C
      → Answer (VerificationSession C) × Store C
      → Answer (Handled C) × Store C
  handle_opened io mgr app user action ctx (err e, st) = (err e, st)
  handle_opened io mgr app user action ctx (ok s, st) = (
    handled s (get_required_plugins mgr app action ctx user)
        (validate_plugin_status io.checking mgr app user st),
    st,
  )

  -- handleVerification
  unfoldable pub handle_verification :
      SignInIo → Manager C → String → String → String → C → Store C → Answer (Handled C) × Store C
  handle_verification io mgr app user action ctx st =
      handle_opened io mgr app user action ctx (create_session io.opening app user action ctx st)

  -- The end of `Login`, with the pair of tokens: the statuses are cleared unless the verification
  -- was skipped, and a failure of that is only logged.
  abbrev pub finish_login :
      SignInIo
      → String
      → Bool
      → User
      → TokenResult TokenPair × Dict Entry
      → Realm C
      → SignIn × Realm C
  finish_login io app skip u (Token.err e, redis) realm =
      (refused (token_failed e), record realm { redis = redis })
  finish_login io app skip u (Token.ok pair, redis) realm = (
    signed_in pair,
    record realm {
      redis = redis;
      store =
          if skip
          then realm.store
          else (clear_verification io.clearing app u.id "login" realm.store).1;
    },
  )

  -- `Login` from the generation of the tokens on.
  abbrev pub grant : TokenService → SignInIo → String → Bool → User → Realm C → SignIn × Realm C
  grant s io app skip u realm =
      finish_login io app skip u
        (generate_token_pair s io.now io.redis_io u.id u.app_id u.username "read" realm.redis) realm

  -- `Login` from the answer of handleVerification on.
  abbrev pub after_handled :
      TokenService → SignInIo → String → User → Answer (Handled C) → Realm C → SignIn × Realm C
  after_handled s io app u (err e) realm = (refused (verification_failed e), realm)
  after_handled s io app u (ok h) realm =
      if not (is_empty h.plugins) && not h.verify_status.completed_all
      then (plugins_required h.plugins h.verify_status h.session.id, realm)
      else grant s io app false u realm

  -- A super administrator skips the verification at the first login.
  unfoldable pub skips : SignInIo → User → Realm C → Bool
  skips io u realm =
      (not (u.id == "") && (io.admin_ok && is_super_admin u.id realm.admins)) && u.is_first_login

  -- `Login` from the last login on.
  abbrev pub verify_user :
      TokenService → Manager C → SignInIo → String → C → Bool → User → Realm C → SignIn × Realm C
  verify_user s mgr io app ctx true u realm = grant s io app true u realm
  verify_user s mgr io app ctx false u realm =
      let (answer, store) = handle_verification io mgr app u.id "login" ctx realm.store in
      after_handled s io app u answer (record realm { store = store })

  -- `Login` from the row on.
  abbrev pub login_user :
      Bcrypt
      → TokenService
      → Manager C
      → SignInIo
      → String
      → String
      → C
      → Option User
      → Realm C
      → SignIn × Realm C
  login_user b s mgr io app password ctx none realm = (refused invalid_credentials, realm)
  login_user b s mgr io app password ctx (some u) realm =
      if not (b.compare u.password password)
      then (refused invalid_credentials, realm)
      else if eqb u.status disabled
      then (refused account_disabled, realm)
      else verify_user s mgr io app ctx (skips io u realm) u (record realm {
        users = if io.login_ok then update_last_login u.id io.now realm.users else realm.users;
      })

  -- Login; the location that is recorded at the end is not part of the state.
  unfoldable pub login :
      Bcrypt
      → TokenService
      → Manager C
      → SignInIo
      → String
      → String
      → String
      → C
      → Realm C
      → SignIn × Realm C
  login b s mgr io app name password ctx realm =
      if io.read_ok
      then login_user b s mgr io app password ctx (get_by_username app name realm.users) realm
      else (refused user_failed, realm)
