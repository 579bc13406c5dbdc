-- ===== src/Access/Roles.antt =====
-- internal/service/role.go over the tables of internal/repository/role.go.
use lauth.Prelude.{
  String, ◌==◌, Bool, true, false, not, ◌&&◌, ◌||◌, Option, none, some, List, [], ◌∷◌, ◌++◌, map,
  keep, if◌then◌else◌,
}

-- Role, by what the service looks at.
pub record Role : Type 0 where
  pub id : String
  pub app_id : String
  pub name : String
  pub is_system : Bool

-- Permission, without its description and its times.
pub record Permission : Type 0 where
  pub id : String
  pub app_id : String
  pub name : String
  pub code : String
  pub resource_type : String
  pub action : String
  pub effect : String

-- RolePermission and UserRole: a role with a permission, or with a user.
pub record Link : Type 0 where
  pub role_id : String
  pub other_id : String

-- The tables.
pub record Tables : Type 0 where
  pub roles : List Role
  pub permissions : List Permission
  pub role_permissions : List Link
  pub user_roles : List Link

-- Which calls of the database in one operation succeed; a write fails as well where it breaks a
-- constraint of the tables.
pub record RoleIo : Type 0 where
  pub id_ok : Bool
  pub name_ok : Bool
  pub write_ok : Bool

pub data RoleError : Type 0 where
  role_not_found role_name_exists role_system_locked database_error : RoleError

abbrev pub RoleAnswer : Type 0
RoleAnswer = Option RoleError × Tables

-- GetByID
unfoldable pub get_role : String → List Role → Option Role
get_role id [] = none
get_role id (r ∷ rs) = if r.id == id then some r else get_role id rs

-- GetByName
unfoldable pub get_role_by_name : String → String → List Role → Option Role
get_role_by_name app name [] = none
get_role_by_name app name (r ∷ rs) =
    if r.app_id == app && r.name == name then some r else get_role_by_name app name rs

-- A write that is done or fails as a whole.
abbrev pub written : RoleIo → Tables → Tables → RoleAnswer
written io new old = if io.write_ok then (none, new) else (some database_error, old)

-- `Create` with what GetByName gives.
abbrev pub create_named : RoleIo → String → Role → Option Role → Tables → RoleAnswer
create_named io app role (some existing) t = (some role_name_exists, t)
create_named io app role none t =
    written io (record t { roles = t.roles ++ record role { app_id = app } ∷ [] }) t

-- Create, of a role whose id BeforeCreate has filled in; the id is a primary key.
unfoldable pub create_role : RoleIo → String → Role → Tables → RoleAnswer
create_role io app role t =
    if not io.name_ok
    then (some database_error, t)
    else create_named io app role (get_role_by_name app role.name t.roles) t

-- Save of the repository.
unfoldable pub save_role : Role → List Role → List Role
save_role role [] = []
save_role role (r ∷ rs) = if r.id == role.id then role ∷ rs else r ∷ save_role role rs

abbrev pub is_taken : Role → Option Role → Bool
is_taken role none = false
is_taken role (some other) = not (other.id == role.id)

-- `Update` with what GetByID gives.
abbrev pub update_existing : RoleIo → Role → Option Role → Tables → RoleAnswer
update_existing io role none t = (some role_not_found, t)
update_existing io role (some existing) t =
    let renamed = not (role.name == existing.name) in
    if existing.is_system
    then (some role_system_locked, t)
    else if renamed && not io.name_ok
    then (some database_error, t)
    else if renamed && is_taken role (get_role_by_name role.app_id role.name t.roles)
    then (some role_name_exists, t)
    else written io (record t { roles = save_role role t.roles }) t

-- An operation on a role that exists; GetByID may fail.
abbrev pub with_role : RoleIo → (Option Role → Tables → RoleAnswer) → String → Tables → RoleAnswer
with_role io f id t = if not io.id_ok then (some database_error, t) else f (get_role id t.roles) t

-- Update
unfoldable pub update_role : RoleIo → Role → Tables → RoleAnswer
update_role io role t = with_role io (update_existing io role) role.id t

-- Delete of the repository, one transaction.
abbrev pub delete_rows : String → Tables → Tables
delete_rows id t = record t {
  role_permissions = keep (λ l. not (l.role_id == id)) t.role_permissions;
  user_roles = keep (λ l. not (l.role_id == id)) t.user_roles;
  roles = keep (λ r. not (r.id == id)) t.roles;
}

-- A change that a system role does not allow.
abbrev pub if_unlocked : RoleIo → (Tables → Tables) → Option Role → Tables → RoleAnswer
if_unlocked io f none t = (some role_not_found, t)
if_unlocked io f (some role) t =
    if role.is_system then (some role_system_locked, t) else written io (f t) t

-- Delete
unfoldable pub delete_role : RoleIo → String → Tables → RoleAnswer
delete_role io id t = with_role io (if_unlocked io (delete_rows id)) id t

abbrev pub text_in : String → List String → Bool
text_in t [] = false
text_in t (x ∷ xs) = x == t || text_in t xs

-- The rows of a role and a list of ids, added and removed.
abbrev pub link_all : String → List String → List Link → List Link
link_all id others links = links ++ map (λ o. record { role_id = id; other_id = o }) others

abbrev pub unlink_all : String → List String → List Link → List Link
unlink_all id others links = keep (λ l. not (l.role_id == id && text_in l.other_id others)) links

-- AddPermissions
unfoldable pub add_permissions : RoleIo → String → List String → Tables → RoleAnswer
add_permissions io id ids t =
    with_role io
      (if_unlocked io (λ u. record u { role_permissions = link_all id ids u.role_permissions })) id
      t

-- RemovePermissions
unfoldable pub remove_permissions : RoleIo → String → List String → Tables → RoleAnswer
remove_permissions io id ids t =
    with_role io
      (if_unlocked io (λ u. record u { role_permissions = unlink_all id ids u.role_permissions }))
      id t

-- A change of a role's users, which a system role allows.
abbrev pub if_found : RoleIo → (Tables → Tables) → Option Role → Tables → RoleAnswer
if_found io f none t = (some role_not_found, t)
if_found io f (some role) t = written io (f t) t

-- AddUsers
unfoldable pub add_users : RoleIo → String → List String → Tables → RoleAnswer
add_users io id users t =
    with_role io (if_found io (λ u. record u { user_roles = link_all id users u.user_roles })) id t

-- RemoveUsers
unfoldable pub remove_users : RoleIo → String → List String → Tables → RoleAnswer
remove_users io id users t =
    with_role io (if_found io (λ u. record u { user_roles = unlink_all id users u.user_roles })) id
      t

abbrev pub is_linked : String → String → List Link → Bool
is_linked role other [] = false
is_linked role other (l ∷ links) =
    l.role_id == role && l.other_id == other || is_linked role other links

-- GetUserRoles without an application: the join of the roles and the rows of the user.
unfoldable pub get_user_roles : String → Tables → List Role
get_user_roles user t = keep (λ r. is_linked r.id user t.user_roles) t.roles

-- GetPermissions of the repository, the join of the permissions and the rows of the role.
unfoldable pub get_permissions : String → Tables → List Permission
get_permissions role t = keep (λ p. is_linked role p.id t.role_permissions) t.permissions

abbrev pub has_code : String → List Permission → Bool
has_code code [] = false
has_code code (p ∷ ps) = p.code == code || has_code code ps

-- The loop of HasPermission over the roles; each role that a join gives exists.
abbrev pub any_role : String → Tables → List Role → Bool
any_role code t [] = false
any_role code t (r ∷ rs) = has_code code (get_permissions r.id t) || any_role code t rs

-- HasPermission, when the database answers; `super` is the answer of IsSuperAdmin.
unfoldable pub has_permission : Bool → String → String → Tables → Bool
has_permission super user code t = if super then true else any_role code t (get_user_roles user t)
