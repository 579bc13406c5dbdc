-- ===== src/Accounts/Users.antt =====
-- internal/service/user.go over the table of internal/repository/user.go, with the hooks of
-- internal/model/user.go.
use lauth.Prelude.{
  ℕ, ◌+◌, ◌*◌, String, ◌==◌, Bool, true, false, not, ◌&&◌, Option, none, some, List, [], ◌∷◌, ◌++◌,
  keep, eqb, if◌then◌else◌,
}

-- User, by what the services look at. The status is a number, 0 for a disabled user.
pub record User : Type 0 where
  pub id : String
  pub app_id : String
  pub username : String
  pub password : String
  pub status : ℕ
  pub is_first_login : Bool
  pub password_expires_at : Option ℕ
  pub last_login_at : Option ℕ
  pub nickname : String
  pub email : String
  pub phone : String

-- golang.org/x/crypto/bcrypt: GenerateFromPassword, where none is an error, and
-- CompareHashAndPassword.
pub record Bcrypt : Type 0 where
  pub hash : String → Option String
  pub compare : String → String → Bool

-- Which calls of the database in one operation succeed: reading the user, reading the row again,
-- and writing, which fails as well where it breaks a constraint of the table.
pub record UserIo : Type 0 where
  pub read_ok : Bool
  pub reread_ok : Bool
  pub write_ok : Bool

pub data UserError : Type 0 where
  user_not_found user_exists invalid_password user_disabled database_error : UserError

-- A user, or an error.
pub data UserAnswer : Type 0 where
  ok : User → UserAnswer
  err : UserError → UserAnswer

abbrev pub disabled : ℕ
disabled = 0

-- 90 days, in seconds.
abbrev pub password_lifetime : ℕ
password_lifetime = 90 * 86400

-- GetByID
unfoldable pub get_user_row : String → List User → Option User
get_user_row id [] = none
get_user_row id (u ∷ us) = if u.id == id then some u else get_user_row id us

-- GetByUsername
unfoldable pub get_by_username : String → String → List User → Option User
get_by_username app name [] = none
get_by_username app name (u ∷ us) =
    if u.app_id == app && u.username == name then some u else get_by_username app name us

-- The row of that id is written over.
abbrev pub set_row : User → List User → List User
set_row v [] = []
set_row v (u ∷ us) = if u.id == v.id then v ∷ us else u ∷ set_row v us

abbrev pub with_hash : User → Option String → Option User
with_hash u none = none
with_hash u (some h) = some (record u { password = h })

-- The write of a row, where the hook gives one.
abbrev pub put :
    (List User → User → List User) → Option User → List User → Option UserError × List User
put write none us = (some database_error, us)
put write (some u) us = (none, write us u)

abbrev pub update_fields : User → List User → List User
update_fields u [] = []
update_fields u (v ∷ vs) =
    if v.id == u.id
    then record v { nickname = u.nickname; email = u.email; phone = u.phone; status = u.status }
      ∷ vs
    else v ∷ update_fields u vs

abbrev pub or_missing : Option User → UserAnswer
or_missing none = err user_not_found
or_missing (some u) = ok u

-- A row that is read, or why it is not.
abbrev pub found : UserIo → Option User → UserAnswer
found io row = if io.read_ok then or_missing row else err database_error

module _ (b : Bcrypt) where
  -- BeforeCreate and BeforeUpdate: a password that is not empty is hashed.
  unfoldable pub hash_password : User → Option User
  hash_password u = if u.password == "" then some u else with_hash u (b.hash u.password)

  -- Create of the repository, with the hook. A field that is zero and has a default in the table
  -- gets the default: the status is then enabled, and the flag of the first login is always set.
  unfoldable pub create_user : UserIo → String → User → List User → Option UserError × List User
  create_user io uuid u us =
      let named = record u {
        id = if u.id == "" then uuid else u.id;
        status = if eqb u.status disabled then 1 else u.status;
        is_first_login = true;
      } in
      if io.write_ok
      then put (λ us u. us ++ u ∷ []) (hash_password named) us
      else (some database_error, us)

  -- `Update` of the repository with the row that it reads again: only the password is taken over.
  abbrev pub save_password : UserIo → User → Option User → List User → Option UserError × List User
  save_password io u none us = (some database_error, us)
  save_password io u (some existing) us =
      if io.write_ok
      then put (λ us v. set_row v us) (hash_password (record existing { password = u.password })) us
      else (some database_error, us)

  -- Update of the repository.
  unfoldable pub update_user_row : UserIo → User → List User → Option UserError × List User
  update_user_row io u us =
      if u.password == ""
      then if io.write_ok then (none, update_fields u us) else (some database_error, us)
      else if io.reread_ok
      then save_password io u (get_user_row u.id us) us
      else (some database_error, us)

  -- `UpdateUser` from the row on, with the nickname, email, phone and status of the request.
  abbrev pub update_found :
      UserIo → String → String → String → ℕ → UserAnswer → List User → Option UserError × List User
  update_found io nickname email phone status (err e) us = (some e, us)
  update_found io nickname email phone status (ok u) us =
      update_user_row io
        (record u { nickname = nickname; email = email; phone = phone; status = status }) us

  -- UpdateUser; the profile that follows does not change the user.
  unfoldable pub update_user :
      UserIo → String → String → String → String → ℕ → List User → Option UserError × List User
  update_user io id nickname email phone status us =
      update_found io nickname email phone status (found io (get_user_row id us)) us

  -- The new password is saved, with the flag and the time that the code sets along.
  abbrev pub save_new_password :
      UserIo → ℕ → String → User → List User → Option UserError × List User
  save_new_password io now new u us =
      update_user_row io
        (record u {
          password = new;
          is_first_login = false;
          password_expires_at = some (now + password_lifetime);
        })
        us

  -- `UpdatePassword` from the row on.
  abbrev pub change_password :
      UserIo → ℕ → String → String → UserAnswer → List User → Option UserError × List User
  change_password io now old new (err e) us = (some e, us)
  change_password io now old new (ok u) us =
      if b.compare u.password old
      then save_new_password io now new u us
      else (some invalid_password, us)

  -- UpdatePassword
  unfoldable pub update_password :
      UserIo → ℕ → String → String → String → List User → Option UserError × List User
  update_password io now id old new us =
      change_password io now old new (found io (get_user_row id us)) us

  abbrev pub set_first : UserIo → ℕ → String → UserAnswer → List User → Option UserError × List User
  set_first io now new (err e) us = (some e, us)
  set_first io now new (ok u) us = save_new_password io now new u us

  -- FirstChangePassword, which asks for no old password.
  unfoldable pub first_change_password :
      UserIo → ℕ → String → String → List User → Option UserError × List User
  first_change_password io now id new us = set_first io now new (found io (get_user_row id us)) us

  -- `ValidateUser` from the row on.
  abbrev pub check_user : String → UserAnswer → UserAnswer
  check_user password (err e) = err e
  check_user password (ok u) =
      if not (b.compare u.password password)
      then err invalid_password
      else if eqb u.status disabled
      then err user_disabled
      else ok u

  -- ValidateUser
  unfoldable pub validate_user : UserIo → String → String → String → List User → UserAnswer
  validate_user io app name password us =
      check_user password (found io (get_by_username app name us))

-- `DeleteUser` with the row, and with the profile found, missing or not readable.
abbrev pub delete_found_user : UserIo → Bool → UserAnswer → List User → Option UserError × List User
delete_found_user io profile_ok (err e) us = (some e, us)
delete_found_user io profile_ok (ok u) us =
    if not profile_ok
    then (some database_error, us)
    else if io.write_ok
    then (none, keep (λ v. not (v.id == u.id)) us)
    else (some database_error, us)

-- DeleteUser; a profile that cannot be deleted is only logged.
unfoldable pub delete_user : UserIo → Bool → String → List User → Option UserError × List User
delete_user io profile_ok id us = delete_found_user io profile_ok (found io (get_user_row id us)) us
