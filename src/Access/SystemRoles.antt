-- ===== src/Access/SystemRoles.antt =====
-- The calls of internal/service/role.go, and what they leave of the rows of a role.
use lauth.Prelude.{
  String, ◌==◌, eq_iff, ◌≡◌, ◌≢◌, refl, not, some, List, [], ◌∷◌, ◌++◌, arith, keep,
}
use lauth.Access.Roles.{
  Role, Link, Tables, RoleIo, RoleAnswer, get_role, create_role, save_role, update_role,
  delete_role, link_all, unlink_all, add_permissions, remove_permissions, add_users, remove_users,
}

-- A call of the service that writes.
pub data RoleCall : Type 0 where
  create_call : RoleIo → String → Role → RoleCall
  update_call : RoleIo → Role → RoleCall
  delete_call : RoleIo → String → RoleCall
  add_permissions_call remove_permissions_call add_users_call remove_users_call :
      RoleIo → String → List String → RoleCall

abbrev pub role_call : RoleCall → Tables → RoleAnswer
role_call (create_call io app role) t = create_role io app role t
role_call (update_call io role) t = update_role io role t
role_call (delete_call io id) t = delete_role io id t
role_call (add_permissions_call io id ids) t = add_permissions io id ids t
role_call (remove_permissions_call io id ids) t = remove_permissions io id ids t
role_call (add_users_call io id users) t = add_users io id users t
role_call (remove_users_call io id users) t = remove_users io id users t

abbrev pub role_calls : List RoleCall → Tables → Tables
role_calls [] t = t
role_calls (c ∷ cs) t = role_calls cs (role_call c t).1

-- The rows of a role in a table of links.
abbrev pub links_of : String → List Link → List Link
links_of id links = keep (λ l. l.role_id == id) links

-- The role `r` and its permissions are the same in both tables.
pub record IsKept (r : Role) (t u : Tables) : Type 0 where
  pub role : get_role r.id u.roles ≡ get_role r.id t.roles
  pub links : links_of r.id u.role_permissions ≡ links_of r.id t.role_permissions

pub kept : (r : Role) (t : Tables) → IsKept r t t
kept r t = record { role = refl; links = refl }

pub get_role-append :
    (id : String) (rs : List Role) (new r : Role)
    → get_role id rs ≡ some r
    → get_role id (rs ++ new ∷ []) ≡ some r
unfolding get_role
get_role-append id [] new r h = cc
get_role-append id (x ∷ rs) new r h = ground (arith, get_role-append id rs new r)

pub get_role-save :
    (id : String) (role : Role) (rs : List Role)
    → role.id ≢ id
    → get_role id (save_role role rs) ≡ get_role id rs
unfolding get_role save_role
get_role-save id role [] h = refl
get_role-save id role (x ∷ rs) h =
    ground
      (arith, eq_iff x.id role.id, eq_iff x.id id, eq_iff role.id id, get_role-save id role rs h)

pub get_role-delete :
    (id other : String) (rs : List Role)
    → other ≢ id
    → get_role id (keep (λ r. not (r.id == other)) rs) ≡ get_role id rs
unfolding get_role keep
get_role-delete id other [] h = refl
get_role-delete id other (x ∷ rs) h =
    ground (arith, eq_iff x.id other, eq_iff x.id id, get_role-delete id other rs h)

pub links-delete :
    (id other : String) (links : List Link)
    → other ≢ id
    → links_of id (keep (λ l. not (l.role_id == other)) links) ≡ links_of id links
unfolding keep
links-delete id other [] h = refl
links-delete id other (x ∷ links) h =
    ground (arith, eq_iff x.role_id other, eq_iff x.role_id id, links-delete id other links h)

pub links-unlink :
    (id other : String) (others : List String) (links : List Link)
    → other ≢ id
    → links_of id (unlink_all other others links) ≡ links_of id links
unfolding keep
links-unlink id other others [] h = refl
links-unlink id other others (x ∷ links) h =
    ground
      (arith, eq_iff x.role_id other, eq_iff x.role_id id, links-unlink id other others links h)

pub links-link :
    (id other : String) (others : List String) (links : List Link)
    → other ≢ id
    → links_of id (link_all other others links) ≡ links_of id links
unfolding keep
links-link id other [] [] h = refl
links-link id other (o ∷ others) [] h =
    ground (arith, eq_iff other id, links-link id other others [] h)
links-link id other others (x ∷ links) h = ground (arith, links-link id other others links h)
