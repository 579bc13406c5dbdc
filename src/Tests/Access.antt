-- ===== src/Tests/Access.antt =====
-- Tests of the super administrators, roles and permissions.
use lauth.Prelude.{◌≡◌, refl, ◌↔◌, true, false, some, List, [], ◌∷◌, arith, All, keep, none}
use lauth.Access.LastAdmin.{
  IsSound, AdminCall, add_call, remove_call, admin_calls, admin_calls-IsSound, all_work,
}
use lauth.Access.Roles.{
  Role, Permission, Tables, RoleIo, role_system_locked, get_role, delete_role, has_permission,
  get_user_roles, get_permissions,
}
use lauth.Access.SystemRoles.{
  RoleCall, delete_call, add_permissions_call, add_users_call, role_calls, links_of,
}
use lauth.Access.Locked.{system_role_stays}
use lauth.Access.Permissions.{
  PermissionIo, permission_name_exists, validate_permission, get_user_permissions, gather_roles,
  gather, get_roles_in, create_permission, delete_permission, get_permission,
  get_permission_by_name,
}
use lauth.Access.Granted.{IsFor, Reaches, validate_permission_iff}

abbrev admin_work : List AdminCall
admin_work = add_call all_work "b" ∷ remove_call all_work "a" ∷ remove_call all_work "b" ∷ []

admin_calls-IsSound_example : IsSound (admin_calls admin_work ("a" ∷ []))
admin_calls-IsSound_example = admin_calls-IsSound admin_work ("a" ∷ []) ((tt, tt), omega arith)

abbrev admin : Role
admin = record { id = "r1"; app_id = "app"; name = "admin"; is_system = true }

abbrev read : Permission
read = record {
  id = "p1";
  app_id = "app";
  name = "read";
  code = "audit:read";
  resource_type = "app";
  action = "read";
  effect = "deny";
}

abbrev tables : Tables
tables = record {
  roles = admin ∷ [];
  permissions = read ∷ [];
  role_permissions = record { role_id = "r1"; other_id = "p1" } ∷ [];
  user_roles = record { role_id = "r1"; other_id = "u" } ∷ [];
}

abbrev io : RoleIo
io = record { id_ok = true; name_ok = true; write_ok = true }

abbrev changes : List RoleCall
changes =
    delete_call io "r1"
    ∷ add_permissions_call io "r1" ("p2" ∷ [])
    ∷ add_users_call io "r1" ("v" ∷ [])
    ∷ []

system_role_stays_example :
    (get_role "r1" (role_calls changes tables).roles ≡ some admin)
    × (links_of "r1" (role_calls changes tables).role_permissions
        ≡ links_of "r1" tables.role_permissions)
unfolding get_role
system_role_stays_example = system_role_stays changes admin tables refl refl

deletes_none : (delete_role io "r1" tables).0 ≡ some role_system_locked
unfolding delete_role get_role
deletes_none = refl

permits : has_permission false "u" "audit:read" tables ≡ true
unfolding has_permission get_user_roles get_permissions keep
permits = refl

abbrev answers : PermissionIo
answers = record {
  id_ok = true;
  name_ok = true;
  write_ok = true;
  roles_ok = true;
  permissions_ok = λ id. true;
}

-- The permission that denies lets the user act.
denied_allowed : validate_permission answers "u" "app" "app" "read" tables ≡ none
unfolding validate_permission get_user_permissions gather_roles gather get_roles_in get_user_roles
    get_permissions keep
denied_allowed = refl

deleted_refused : (delete_permission answers "p1" tables).1.permissions ≡ []
unfolding delete_permission get_permission keep
deleted_refused = refl

named_twice : (create_permission answers "app" read tables).0 ≡ some permission_name_exists
unfolding create_permission get_permission_by_name
named_twice = refl

validate_permission_iff_example :
    (validate_permission answers "u" "app" "app" "read" tables ≡ none) ↔ (
      (true ≡ true)
      × All (λ r. true ≡ true) (get_roles_in "u" "app" tables)
      × Reaches (IsFor "app" "read") "u" "app" tables)
validate_permission_iff_example =
    validate_permission_iff answers "u" "app" "app" "read" tables (((λ e. refl), tt), tt)
