-- ===== src/Tests/Accounts.antt =====
-- Tests of the users, of signing in, registering and signing out.
use lauth.Prelude.{
  String, eq_iff, ◌==◌, ◌≡◌, ◌≢◌, refl, ap, inl, inr, ◌&&◌, ◌||◌, true, false, none, some, [], ◌∷◌,
  keep, differ, text-cases, if◌then◌else◌, arith,
}
use lauth.Prelude.Dict.{lookup, insert}
use lauth.Access.SuperAdmins.{is_super_admin}
use lauth.Accounts.Users.{
  User, Bcrypt, UserIo, UserAnswer, invalid_password, get_user_row, get_by_username, update_user,
  create_user, hash_password, update_password, validate_user,
}
use lauth.Accounts.Login.{Realm, SignInIo, signed_in, handle_verification, skips, login}
use lauth.Accounts.Register.{register}
use lauth.Accounts.Registered.{register-validate_user}
use lauth.Accounts.Tokens.{logout, validate_token_and_get_user}
use lauth.Accounts.SignedOut.{logout-refused}
use lauth.Oauth.Token.{TokenResult, generate_token, generate_token_pair, validate_token, revoke}
use lauth.Oauth.Revoked.{run_calls}
use lauth.Sessions.Tables.{
  session_row, get_session, list_status, get_active_session, newest, delete_session, update_session,
}
use lauth.Sessions.Service.{create_session, recent_completed, update_session_user_id}
use lauth.Sessions.Clearing.{clear_verification, delete_active, delete_each, delete_listed}
use lauth.Sessions.Requirements.{get_required_plugins}
use lauth.Sessions.Walk.{validate_requirements, validate_loop}
use lauth.Sessions.Validation.{
  validate_plugin_status, validate_plugin_status_by_session, validate_session, build_status_maps,
  get_statuses_by_session,
}
use lauth.Sessions.Status.{Manager}
use lauth.Tests.Oauth.{plain, plain_pair, works, later_calls, parse_known, exp_of}
use lauth.Tests.Sessions.{env_at, manager}
use lauth.Accounts.Passwords.{Checks, update_password-validate_user, update_user-validate_user}

-- A bcrypt that knows three passwords.
abbrev known : Bcrypt
known = record {
  hash = λ p.
      if p == "pw"
      then some "h1"
      else if p == "new"
      then some "h2"
      else if p == "h1"
      then some "h3"
      else none;
  compare =
      λ h q. (h == "h1" && q == "pw") || ((h == "h2" && q == "new") || (h == "h3" && q == "h1"));
}

known-Checks : Checks known
known-Checks p q h e = elim (text-cases p "pw") [
  | inl f ↦
      let k : some "h1" ≡ some h = rw f at e in
      let g : h ≡ "h1" = cc k in rw (f, g) (ground (arith, eq_iff q "pw"))
  | inr (_, f) ↦ elim (text-cases p "new") [
    | inl g ↦
        let k : some "h2" ≡ some h = rw g at e in
        let i : h ≡ "h2" = cc k in rw (g, i) (ground (arith, eq_iff q "new"))
    | inr (_, g) ↦ elim (text-cases p "h1") [
      | inl i ↦
          let k : some "h3" ≡ some h = rw i at e in
          let j : h ≡ "h3" = cc k in rw (i, j) (ground (arith, eq_iff q "h1"))
      | inr (_, i) ↦ cc (simp (f, g, i) at e)
    ]
  ]
]

abbrev pub alice : User
alice = record {
  id = "u";
  app_id = "app";
  username = "alice";
  password = "h1";
  status = 1;
  is_first_login = true;
  password_expires_at = none;
  last_login_at = none;
  nickname = "";
  email = "";
  phone = "";
}

abbrev user_io : UserIo
user_io = record { read_ok = true; reread_ok = true; write_ok = true }

update_password-validate_user_example :
    let a = update_password known user_io 5 "u" "pw" "new" (alice ∷ []) in
    (a.0 ≡ none)
    × (get_user_row "u" a.1 ≡ some (record alice { password = "h2" }))
    × (validate_user known user_io "app" "alice" "new" a.1
        ≡ UserAnswer.ok (record alice { password = "h2" }))
    × (◌≢◌ {A = String} "pw" "new"
        → validate_user known user_io "app" "alice" "pw" a.1 ≡ UserAnswer.err invalid_password)
unfolding get_user_row get_by_username
update_password-validate_user_example =
    update_password-validate_user known known-Checks user_io 5 alice "pw" "new" "h2" "pw"
      (alice ∷ []) (refl, refl, refl) (refl, refl) refl (differ "new" "" refl) refl refl

update_user-validate_user_example :
    let a = update_user known user_io "u" "Al" "a@b" "1" 1 (alice ∷ []) in
    (a.0 ≡ none)
    × (get_user_row "u" a.1 ≡ some (record alice { password = "h3" }))
    × (validate_user known user_io "app" "alice" "pw" (alice ∷ [])
        ≢ UserAnswer.err invalid_password)
    × (validate_user known user_io "app" "alice" "pw" a.1 ≡ UserAnswer.err invalid_password)
unfolding get_user_row get_by_username
update_user-validate_user_example =
    update_user-validate_user known known-Checks user_io alice "pw" "h3" "Al" "a@b" "1" 1
      (alice ∷ []) (refl, refl, refl) (refl, refl) refl (differ "h1" "" refl)
      (differ "h1" "pw" refl) refl

abbrev io : SignInIo
io = record {
  now = 0;
  app_ok = true;
  app_known = true;
  read_ok = true;
  admin_ok = true;
  login_ok = true;
  user_io = user_io;
  redis_io = works;
  opening = env_at 10;
  checking = env_at 11;
  naming = env_at 12;
  clearing = env_at 13;
}

-- No plugin is installed.
abbrev bare : Manager String
bare = record {
  list_plugins = λ app. [];
  get_plugin_configs = λ app. some [];
  get_plugin = λ app name. none;
}

abbrev realm : Realm String
realm = record {
  users = alice ∷ [];
  admins = "u" ∷ [];
  store = record { sessions = []; statuses = [] };
  redis = [];
}

-- A super administrator at the first login needs no verification.
first_login : (login known plain manager io "app" "alice" "pw" "ctx" realm).0 ≡ signed_in plain_pair
unfolding login get_by_username skips is_super_admin generate_token_pair generate_token
first_login = refl

abbrev bob : User
bob = record alice { id = ""; username = "bob"; password = "new"; is_first_login = false }

register-validate_user_example :
    (h : String) × (validate_user known user_io "app" "bob" "new"
        (register known plain bare io "v" "app" bob "ctx" realm).1.users
      ≡ UserAnswer.ok (record bob { id = "v"; password = h; is_first_login = true }))
unfolding register handle_verification get_by_username create_session recent_completed list_status
    keep get_active_session newest get_required_plugins validate_plugin_status session_row
    validate_plugin_status_by_session get_session validate_session validate_requirements
    validate_loop create_user hash_password generate_token generate_token_pair insert lookup
    clear_verification delete_active delete_each delete_listed update_session_user_id delete_session
    update_session build_status_maps get_statuses_by_session
register-validate_user_example =
    register-validate_user known plain bare io user_io "v" bob "ctx" realm plain_pair known-Checks
      refl (differ "new" "" refl) refl refl refl

logout-refused_example :
    validate_token_and_get_user plain 4 works "A"
      (run_calls plain later_calls (logout plain 1 works works "A" []).1)
    ≢ TokenResult.ok (record { user_id = "u"; app_id = "a"; username = "n" })
unfolding logout revoke validate_token parse_known lookup insert
logout-refused_example =
    logout-refused plain 1 4 works works works "A" later_calls []
      (record { user_id = "u"; app_id = "a"; username = "n" })
      (λ n d e. let k = ap exp_of e in omega (arith, k)) refl
