-- ===== src/Tests/Starts.antt =====
-- Tests of the first start, in internal/service/super_admin.go.
use lauth.Prelude.{◌≡◌, String, refl, ◌++◌, true, false, some, [], ◌∷◌, differ, keep}
use lauth.Accounts.Users.{Bcrypt, create_user, hash_password}
use lauth.Access.SuperAdmins.{is_super_admin}
use lauth.Access.FirstStart.{
  Start, credentials, admin_password, check_and_init_super_admin, init_users, create_admin_user,
  create_super_admin, link_admin, find_admin,
}
use lauth.Access.Started.{starts, new_installation, installed, starts-installed}

abbrev bcrypt : Bcrypt
bcrypt = record { hash = λ t. some t; compare = λ h t. true }

abbrev works : Start
works = record {
  new_app_id = "a1";
  new_user_id = "u1";
  admins_ok = true;
  apps_ok = true;
  app_write_ok = true;
  users_ok = true;
  admin_read_ok = true;
  user_write_ok = true;
  admin_write_ok = true;
}

-- The user is created, and the row of the administrator is not.
abbrev half : Start
half = record works { admin_write_ok = false }

abbrev second : Start
second = record works { new_app_id = "a2"; new_user_id = "u2" }

-- After half a start, the next one shows no password.
no_password :
    (check_and_init_super_admin bcrypt second
      (check_and_init_super_admin bcrypt half new_installation).1).0
    ≡ credentials "admin" ""
unfolding check_and_init_super_admin init_users create_admin_user create_super_admin link_admin
    find_admin is_super_admin create_user hash_password keep
no_password = refl

starts-installed_example :
    (app : String) × (id : String) × (starts bcrypt
        (half ∷ [] ++ second ∷ works ∷ [])
        new_installation
      ≡ installed app id admin_password)
starts-installed_example =
    starts-installed bcrypt admin_password (half ∷ []) (works ∷ []) second refl
      (differ "u1" "" refl, tt) (refl, refl, refl, refl, refl, refl, refl)
