-- ===== src/Access/FirstStart.antt =====
-- `CheckAndInitSuperAdmin` of internal/service/super_admin.go over the tables of the applications,
-- the users and the super administrators.
use lauth.Prelude.{
  String, ◌==◌, Bool, true, not, Option, none, some, List, [], ◌∷◌, ◌++◌, take, keep, if◌then◌else◌,
}
use lauth.Access.SuperAdmins.{is_super_admin}
use lauth.Accounts.Users.{User, Bcrypt, UserIo, UserError, create_user}

-- The ids of the applications, the users, and the ids of the users who are administrators.
pub record Installation : Type 0 where
  pub apps : List String
  pub users : List User
  pub admins : List String

-- One start: the ids that it would draw, and which calls of the database succeed. A write fails as
-- well where it breaks a constraint of the tables.
pub record Start : Type 0 where
  pub new_app_id : String
  pub new_user_id : String
  pub admins_ok : Bool
  pub apps_ok : Bool
  pub app_write_ok : Bool
  pub users_ok : Bool
  pub admin_read_ok : Bool
  pub user_write_ok : Bool
  pub admin_write_ok : Bool

-- An error, nothing to do, or a name with the password to show.
pub data StartAnswer : Type 0 where
  failed untouched : StartAnswer
  credentials : String → String → StartAnswer

abbrev pub admin_username : String
admin_username = "admin"

abbrev pub admin_password : String
admin_password = "Admin@123"

-- The list of at most 100 users of the application.
abbrev pub list_users : String → List User → List User
list_users app us = take 100 (keep (λ u. u.app_id == app) us)

-- The loop over the users.
unfoldable pub find_admin : List User → Option User
find_admin [] = none
find_admin (u ∷ us) = if u.username == admin_username then some u else find_admin us

-- newAdminUser
abbrev pub new_admin_user : String → User
new_admin_user app = record {
  id = "";
  app_id = app;
  username = admin_username;
  password = admin_password;
  status = 1;
  is_first_login = true;
  password_expires_at = none;
  last_login_at = none;
  nickname = "";
  email = "admin@example.com";
  phone = "";
}

-- CreateSuperAdmin, and the answer with a password.
unfoldable pub create_super_admin :
    Start → String → String → Installation → StartAnswer × Installation
create_super_admin s user password t =
    if s.admin_write_ok
    then (credentials admin_username password, record t { admins = t.admins ++ user ∷ [] })
    else (failed, t)

-- The user is there: an administrator without a new password.
unfoldable pub link_admin : Start → User → Installation → StartAnswer × Installation
link_admin s u t =
    if not s.admin_read_ok
    then (failed, t)
    else if is_super_admin u.id t.admins
    then (credentials admin_username "", t)
    else create_super_admin s u.id "" t

-- What follows the creation of the user.
abbrev pub link_created :
    Start → Option UserError × List User → Installation → StartAnswer × Installation
link_created s (some e, us) t = (failed, t)
link_created s (none, us) t =
    create_super_admin s s.new_user_id admin_password (record t { users = us })

module _ (b : Bcrypt) where
  unfoldable pub create_admin_user : Start → String → Installation → StartAnswer × Installation
  create_admin_user s app t =
      let io : UserIo = record { read_ok = true; reread_ok = true; write_ok = s.user_write_ok } in
      link_created s (create_user b io s.new_user_id (new_admin_user app) t.users) t

  abbrev pub init_user : Start → String → Option User → Installation → StartAnswer × Installation
  init_user s app none t = create_admin_user s app t
  init_user s app (some u) t = if u.id == "" then create_admin_user s app t else link_admin s u t

  unfoldable pub init_users : Start → String → Installation → StartAnswer × Installation
  init_users s app t =
      if s.users_ok then init_user s app (find_admin (list_users app t.users)) t else (failed, t)

  abbrev pub init_apps : Start → List String → Installation → StartAnswer × Installation
  init_apps s (app ∷ apps) t = init_users s app t
  init_apps s [] t =
      if s.app_write_ok
      then init_users s s.new_app_id (record t { apps = s.new_app_id ∷ [] })
      else (failed, t)

  abbrev pub init_admins : Start → List String → Installation → StartAnswer × Installation
  init_admins s (a ∷ admins) t = (untouched, t)
  init_admins s [] t = if s.apps_ok then init_apps s t.apps t else (failed, t)

  -- CheckAndInitSuperAdmin
  unfoldable pub check_and_init_super_admin : Start → Installation → StartAnswer × Installation
  check_and_init_super_admin s t = if s.admins_ok then init_admins s t.admins t else (failed, t)
