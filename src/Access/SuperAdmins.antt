-- ===== src/Access/SuperAdmins.antt =====
-- internal/service/super_admin.go over the table of internal/repository/super_admin.go, which is
-- the list of the users in it.
use lauth.Prelude.{
  String, ◌==◌, Bool, false, not, ◌||◌, Option, none, some, List, [], ◌∷◌, ◌++◌, length, keep, leb,
  if◌then◌else◌,
}

-- Which calls of the database in one operation succeed.
pub record AdminIo : Type 0 where
  pub user_ok : Bool
  pub count_ok : Bool
  pub list_ok : Bool
  pub write_ok : Bool

pub data AdminError : Type 0 where
  user_not_exists super_admin_exists super_admin_not_exists last_super_admin database_error :
      AdminError

-- IsSuperAdmin of the repository
unfoldable pub is_super_admin : String → List String → Bool
is_super_admin user [] = false
is_super_admin user (a ∷ admins) = a == user || is_super_admin user admins

-- DeleteSuperAdmin
unfoldable pub delete_super_admin : String → List String → List String
delete_super_admin user admins = keep (λ a. not (a == user)) admins

-- AddSuperAdmin; GetByID gives no error for a user that does not exist, so `user_ok` alone counts.
unfoldable pub add_super_admin : AdminIo → String → List String → Option AdminError × List String
add_super_admin io user admins =
    if not io.user_ok
    then (some user_not_exists, admins)
    else if not io.count_ok
    then (some database_error, admins)
    else if is_super_admin user admins
    then (some super_admin_exists, admins)
    else if not io.write_ok
    then (some database_error, admins)
    else (none, admins ++ user ∷ [])

-- The checks of `RemoveSuperAdmin`: its error, if any.
unfoldable pub check_removal : AdminIo → String → List String → Option AdminError
check_removal io user admins =
    if not io.count_ok
    then some database_error
    else if not (is_super_admin user admins)
    then some super_admin_not_exists
    else if not io.list_ok
    then some database_error
    else if leb (length admins) 1
    then some last_super_admin
    else none

-- The deletion behind the checks.
abbrev pub remove_checked :
    AdminIo → String → Option AdminError → List String → Option AdminError × List String
remove_checked io user (some e) admins = (some e, admins)
remove_checked io user none admins =
    if not io.write_ok
    then (some database_error, admins)
    else (none, delete_super_admin user admins)

-- RemoveSuperAdmin
unfoldable pub remove_super_admin : AdminIo → String → List String → Option AdminError × List String
remove_super_admin io user admins = remove_checked io user (check_removal io user admins) admins
