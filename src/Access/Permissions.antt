-- ===== src/Access/Permissions.antt =====
-- internal/service/permission.go over the tables of internal/repository/permission.go.
use lauth.Prelude.{
  String, ◌==◌, Bool, false, not, ◌&&◌, ◌||◌, Option, none, some, List, [], ◌∷◌, ◌++◌, keep,
  if◌then◌else◌,
}
use lauth.Access.Roles.{Role, Permission, Tables, text_in, get_user_roles, get_permissions}

-- Which calls of the database in one operation succeed; the permissions are read role by role.
pub record PermissionIo : Type 0 where
  pub id_ok : Bool
  pub name_ok : Bool
  pub write_ok : Bool
  pub roles_ok : Bool
  pub permissions_ok : String → Bool

pub data PermissionError : Type 0 where
  permission_not_found permission_name_exists no_permission database_error : PermissionError

abbrev pub PermissionAnswer : Type 0
PermissionAnswer = Option PermissionError × Tables

-- GetByID
unfoldable pub get_permission : String → List Permission → Option Permission
get_permission id [] = none
get_permission id (p ∷ ps) = if p.id == id then some p else get_permission id ps

-- GetByName
unfoldable pub get_permission_by_name : String → String → List Permission → Option Permission
get_permission_by_name app name [] = none
get_permission_by_name app name (p ∷ ps) =
    if p.app_id == app && p.name == name then some p else get_permission_by_name app name ps

abbrev pub written : PermissionIo → List Permission → Tables → PermissionAnswer
written io ps t =
    if io.write_ok then (none, record t { permissions = ps }) else (some database_error, t)

-- `Create` with what GetByName gives.
abbrev pub create_unnamed :
    PermissionIo → String → Permission → Option Permission → Tables → PermissionAnswer
create_unnamed io app p (some existing) t = (some permission_name_exists, t)
create_unnamed io app p none t = written io (t.permissions ++ record p { app_id = app } ∷ []) t

-- Create, of a permission whose id BeforeCreate has filled in.
unfoldable pub create_permission : PermissionIo → String → Permission → Tables → PermissionAnswer
create_permission io app p t =
    if not io.name_ok
    then (some database_error, t)
    else create_unnamed io app p (get_permission_by_name app p.name t.permissions) t

-- Update of the repository, for a permission that is there.
unfoldable pub save_permission : Permission → List Permission → List Permission
save_permission p [] = []
save_permission p (q ∷ ps) = if q.id == p.id then p ∷ ps else q ∷ save_permission p ps

-- Another permission has the name.
abbrev pub is_other : Permission → Option Permission → Bool
is_other p none = false
is_other p (some q) = not (q.id == p.id)

-- `Update` with what GetByID gives.
abbrev pub update_found_permission :
    PermissionIo → Permission → Option Permission → Tables → PermissionAnswer
update_found_permission io p none t = (some permission_not_found, t)
update_found_permission io p (some existing) t =
    let renamed = not (p.name == existing.name) in
    if renamed && not io.name_ok
    then (some database_error, t)
    else if renamed && is_other p (get_permission_by_name p.app_id p.name t.permissions)
    then (some permission_name_exists, t)
    else written io (save_permission p t.permissions) t

-- Update
unfoldable pub update_permission : PermissionIo → Permission → Tables → PermissionAnswer
update_permission io p t =
    if not io.id_ok
    then (some database_error, t)
    else update_found_permission io p (get_permission p.id t.permissions) t

-- `Delete` with what GetByID gives: the rows of the permission and the permission, in one
-- transaction.
abbrev pub delete_found_permission :
    PermissionIo → String → Option Permission → Tables → PermissionAnswer
delete_found_permission io id none t = (some permission_not_found, t)
delete_found_permission io id (some p) t =
    let rest = record t {
      role_permissions = keep (λ l. not (l.other_id == id)) t.role_permissions;
      permissions = keep (λ q. not (q.id == id)) t.permissions;
    } in
    if io.write_ok then (none, rest) else (some database_error, t)

-- Delete
unfoldable pub delete_permission : PermissionIo → String → Tables → PermissionAnswer
delete_permission io id t =
    if not io.id_ok
    then (some database_error, t)
    else delete_found_permission io id (get_permission id t.permissions) t

-- The ids that are in permMap, and the permissions so far.
pub record Gathered : Type 0 where
  pub seen : List String
  pub found : List Permission

-- One permission of the loop of GetUserPermissions.
abbrev pub gather_one : Permission → Gathered → Gathered
gather_one p g =
    if text_in p.id g.seen then g else record { seen = p.id ∷ g.seen; found = g.found ++ p ∷ [] }

-- The loop of GetUserPermissions over the permissions of one role.
unfoldable pub gather : List Permission → Gathered → Gathered
gather [] g = g
gather (p ∷ ps) g = gather ps (gather_one p g)

-- The loop over the roles; none is an error of the database.
unfoldable pub gather_roles : PermissionIo → Tables → List Role → Gathered → Option Gathered
gather_roles io t [] g = some g
gather_roles io t (r ∷ rs) g =
    if not (io.permissions_ok r.id)
    then none
    else gather_roles io t rs (gather (get_permissions r.id t) g)

-- GetUserRoles of the repository, where an empty application is none.
unfoldable pub get_roles_in : String → String → Tables → List Role
get_roles_in user app t =
    if app == "" then get_user_roles user t else keep (λ r. r.app_id == app) (get_user_roles user t)

-- GetUserPermissions
unfoldable pub get_user_permissions : PermissionIo → String → String → Tables → Option Gathered
get_user_permissions io user app t =
    if not io.roles_ok
    then none
    else gather_roles io t (get_roles_in user app t) (record { seen = []; found = [] })

-- The loop of HasPermission.
abbrev pub any_match : String → String → List Permission → Bool
any_match kind action [] = false
any_match kind action (p ∷ ps) =
    p.resource_type == kind && p.action == action || any_match kind action ps

-- `ValidatePermission` and HasPermission with what GetUserPermissions gives.
abbrev pub check_permissions : String → String → Option Gathered → Option PermissionError
check_permissions kind action none = some database_error
check_permissions kind action (some g) =
    if any_match kind action g.found then none else some no_permission

-- ValidatePermission
unfoldable pub validate_permission :
    PermissionIo → String → String → String → String → Tables → Option PermissionError
validate_permission io user app kind action t =
    check_permissions kind action (get_user_permissions io user app t)
