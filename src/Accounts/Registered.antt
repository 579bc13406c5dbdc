-- ===== src/Accounts/Registered.antt =====
-- What Register of internal/service/auth_account.go leaves behind.
use lauth.Prelude.{
  String, ◌==◌, eq_iff, eq_refl, ◌≡◌, ◌≢◌, refl, inl, inr, Bool, true, false, not, ◌&&◌, Option,
  none, some, List, [], ◌∷◌, ◌++◌, eqb, if◌then◌else◌, Bool-cases, arith,
}
use lauth.Prelude.Dict.{Dict}
use lauth.Accounts.Users.{
  User, Bcrypt, UserIo, UserError, UserAnswer, disabled, get_by_username, with_hash, put,
  hash_password, create_user, validate_user, check_user,
}
use lauth.Accounts.Users
use lauth.Accounts.Passwords.{Checks}
use lauth.Accounts.Login.{Realm, SignInIo, Handled, SignIn, signed_in, is_empty}
use lauth.Accounts.Register.{with_pair, cleared, created, registered, register_new, register}
use lauth.Oauth.Token.{Entry, TokenService, TokenPair, TokenResult}
use lauth.Oauth.Token
use lauth.Sessions.Tables.{Store, Answer, ok, err, VerifyError}
use lauth.Sessions.Status.{Manager}

get_by_username-last :
    (app name : String) (v : User) (us : List User)
    → get_by_username app name us ≡ none
    → v.app_id ≡ app
    → v.username ≡ name
    → get_by_username app name (us ++ v ∷ []) ≡ some v
unfolding get_by_username
get_by_username-last app name v [] h a n = simp (a, n, eq_refl app, eq_refl name)
get_by_username-last app name v (u ∷ us) h a n =
    elim (Bool-cases (u.app_id == app && u.username == name)) [
      | inl e ↦ absurd (cc (simp e at h))
      | inr e ↦ simp e (get_by_username-last app name v us (simp e at h) a n)
    ]

-- Tokens are answered only with these users.
abbrev Leaves : {C : Type 0} → List User → SignIn × Realm C → Type 0
Leaves users x = (pair : TokenPair) → x.0 ≡ signed_in pair → x.1.users ≡ users

-- Tokens are answered only when the user has been added with its password hashed.
abbrev Adds : {C : Type 0} → Bcrypt → String → User → List User → SignIn × Realm C → Type 0
Adds b uuid u users x =
    (pair : TokenPair)
    → x.0 ≡ signed_in pair
    → (h : String) × (b.hash u.password ≡ some h)
      × (x.1.users ≡ users ++ record u { id = uuid; password = h; is_first_login = true } ∷ [])

module _ {C : Type 0} where
  with_pair-Leaves :
      (x : TokenResult TokenPair × Dict Entry) (realm : Realm C)
      → Leaves realm.users (with_pair x realm)
  with_pair-Leaves (Token.err e, redis) realm pair h = refl
  with_pair-Leaves (Token.ok p, redis) realm pair h = refl

  cleared-Leaves :
      (s : TokenService) (io : SignInIo) (u : User) (x : Option VerifyError × Store C)
      (realm : Realm C)
      → Leaves realm.users (cleared s io u x realm)
  cleared-Leaves s io u (some e, store) realm pair h = refl
  cleared-Leaves s io u (none, store) realm pair h = with_pair-Leaves _ _ pair h

  created-Adds :
      (b : Bcrypt) (s : TokenService) (io : SignInIo) (uuid app : String) (hd : Handled C)
      (u : User) (realm : Realm C) (w : Bool) (o : Option String)
      → b.hash u.password ≡ o
      → Adds b uuid u realm.users (
          created s io app hd
            (record u { id = uuid })
            (if w
              then put
                  (λ us v. us ++ v ∷ [])
                  (with_hash (record u { id = uuid; is_first_login = true }) o)
                  realm.users
              else (some Users.database_error, realm.users))
            realm)
  created-Adds b s io uuid app hd u realm false o e pair h = cc h
  created-Adds b s io uuid app hd u realm true none e pair h = cc h
  created-Adds b s io uuid app hd u realm true (some hash) e pair h =
      (hash, e, cleared-Leaves s io (record u { id = uuid }) _ _ pair h)

  create_user-Adds :
      (b : Bcrypt) (s : TokenService) (io : SignInIo) (uuid app : String) (hd : Handled C)
      (u : User) (realm : Realm C)
      → u.id ≡ ""
      → u.password ≢ ""
      → eqb u.status disabled ≡ false
      → Adds b uuid u realm.users (
          created s io app hd
            (record u { id = uuid })
            (create_user b io.user_io uuid u realm.users)
            realm)
  unfolding create_user hash_password
  create_user-Adds b s io uuid app hd u realm new filled on =
      let nonempty : (u.password == "") ≡ false = ground (arith, eq_iff u.password "") in
      simp (new, nonempty, on)
        (created-Adds b s io uuid app hd u realm io.user_io.write_ok (b.hash u.password) refl)

  registered-Adds :
      (b : Bcrypt) (s : TokenService) (io : SignInIo) (uuid app : String) (u : User)
      (a : Answer (Handled C)) (realm : Realm C)
      → u.id ≡ ""
      → u.password ≢ ""
      → eqb u.status disabled ≡ false
      → Adds b uuid u realm.users (registered b s io uuid app u a realm)
  registered-Adds b s io uuid app u (err e) realm new filled on = λ pair h. cc h
  registered-Adds b s io uuid app u (ok hd) realm new filled on =
      elim (Bool-cases (not (is_empty hd.plugins) && not hd.verify_status.completed_all)) [
        | inl e ↦ simp e (λ pair h. cc h)
        | inr e ↦ simp e (create_user-Adds b s io uuid app hd u realm new filled on)
      ]

  -- Registration goes on only where the name is free.
  register_new-Adds :
      (b : Bcrypt) (s : TokenService) (mgr : Manager C) (io : SignInIo) (uuid app : String)
      (u : User) (ctx : C) (o : Option User) (realm : Realm C) (pair : TokenPair)
      → u.id ≡ ""
      → u.password ≢ ""
      → eqb u.status disabled ≡ false
      → (register_new b s mgr io uuid app u ctx o realm).0 ≡ signed_in pair
      → (h : String) × (o ≡ none)
        × (b.hash u.password ≡ some h)
        × ((register_new b s mgr io uuid app u ctx o realm).1.users
            ≡ realm.users ++ record u { id = uuid; password = h; is_first_login = true } ∷ [])
  register_new-Adds b s mgr io uuid app u ctx (some v) realm pair new filled on h = cc h
  register_new-Adds b s mgr io uuid app u ctx none realm pair new filled on h =
      let (hash, hashed, users) = registered-Adds b s io uuid app u _ _ new filled on pair h in
      (hash, refl, hashed, users)

  register-Adds :
      (b : Bcrypt) (s : TokenService) (mgr : Manager C) (io : SignInIo) (uuid app : String)
      (u : User) (ctx : C) (realm : Realm C) (pair : TokenPair)
      → u.id ≡ ""
      → u.password ≢ ""
      → eqb u.status disabled ≡ false
      → (register b s mgr io uuid app u ctx realm).0 ≡ signed_in pair
      → (h : String) × (get_by_username app u.username realm.users ≡ none)
        × (b.hash u.password ≡ some h)
        × ((register b s mgr io uuid app u ctx realm).1.users
            ≡ realm.users ++ record u { id = uuid; password = h; is_first_login = true } ∷ [])
  unfolding register
  register-Adds b s mgr io uuid app u ctx realm pair new filled on = elim (Bool-cases io.app_ok) [
    | inr e ↦ simp e (λ h. cc h)
    | inl e ↦ elim (Bool-cases io.app_known) [
      | inr f ↦ simp (e, f) (λ h. cc h)
      | inl f ↦ elim (Bool-cases io.read_ok) [
        | inr g ↦ simp (e, f, g) (λ h. cc h)
        | inl g ↦
            simp (e, f, g) (register_new-Adds b s mgr io uuid app u ctx _ realm pair new filled on)
      ]
    ]
  ]

  -- When Register answers tokens, the user has been added under its uuid, and the password that it
  -- registered with signs it in, as a user that has not signed in before: the flag of the first
  -- login is set. The request has an application, a password that is not empty, no id and a user
  -- that is not disabled; the database answers when the password is checked, and bcrypt accepts a
  -- hash of exactly the password that it was made of.
  pub register-validate_user :
      (b : Bcrypt) (s : TokenService) (mgr : Manager C) (io : SignInIo) (later : UserIo)
      (uuid : String) (u : User) (ctx : C) (realm : Realm C) (pair : TokenPair)
      → Checks b
      → u.id ≡ ""
      → u.password ≢ ""
      → eqb u.status disabled ≡ false
      → later.read_ok ≡ true
      → (register b s mgr io uuid u.app_id u ctx realm).0 ≡ signed_in pair
      → (h : String) × (validate_user b later u.app_id u.username u.password
            (register b s mgr io uuid u.app_id u ctx realm).1.users
          ≡ Users.ok (record u { id = uuid; password = h; is_first_login = true }))
  unfolding validate_user
  register-validate_user b s mgr io later uuid u ctx realm pair checks new filled on works h =
      let (hash, free, hashed, users) =
        register-Adds b s mgr io uuid u.app_id u ctx realm pair new filled on h in
      let v = record u { id = uuid; password = hash; is_first_login = true } in
      let accepts : b.compare hash u.password ≡ true =
        (checks u.password u.password hash hashed).1 refl in
      (
        hash,
        rw users (
            simp (
              works,
              get_by_username-last u.app_id u.username v realm.users free refl refl,
              accepts,
              on,
            )),
      )
