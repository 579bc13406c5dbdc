-- ===== src/Access/Granted.antt =====
-- Whom internal/service/permission.go lets do what.
use lauth.Prelude.{
  String, ◌==◌, eq_iff, ◌≡◌, ◌≢◌, ◌↔◌, ◌⊎◌, inl, inr, true, Option, none, some, List, [], ◌∷◌,
  Bool-cases, text-cases, keep, arith, All, Any, Any-mono,
}
use lauth.Access.Roles.{Role, Permission, Tables, get_permissions, get_user_roles}
use lauth.Access.Permissions.{
  PermissionIo, Gathered, get_roles_in, get_user_permissions, any_match, check_permissions,
  validate_permission,
}
use lauth.Access.Permitted.{Joins, get_permissions_iff, get_user_roles_iff}
use lauth.Access.Gathered.{IsKeyed, FoundBy, gather_roles_iff}

-- The permission is for the action on the kind of resource; its effect does not count.
abbrev pub IsFor : String → String → Permission → Type 0
IsFor kind action p = (p.resource_type ≡ kind) × (p.action ≡ action)

any_match_iff :
    (kind action : String) (ps : List Permission)
    → (any_match kind action ps ≡ true) ↔ Any (IsFor kind action) ps
any_match_iff kind action [] = (λ h. cc, λ h. absurd h)
any_match_iff kind action (p ∷ ps) =
    ground
      (arith, eq_iff p.resource_type kind, eq_iff p.action action, any_match_iff kind action ps)

check_permissions_iff :
    (kind action : String) (r : Option Gathered)
    → (check_permissions kind action r ≡ none) ↔ FoundBy (IsFor kind action) r
check_permissions_iff kind action none = ground arith
check_permissions_iff kind action (some g) = ground (arith, any_match_iff kind action g.found)

-- The role is one of the application, where an empty application is any.
abbrev pub InApp : String → Role → Type 0
InApp app r = (app ≡ "") ⊎ (r.app_id ≡ app)

InApp-every :
    (P : Role → Type 0) (app : String) (rs : List Role)
    → app ≡ ""
    → Any P rs ↔ Any (λ r. InApp app r × P r) rs
InApp-every P app [] e = (λ h. h, λ h. h)
InApp-every P app (r ∷ rs) e = ground (arith, e, InApp-every P app rs e)

InApp-keep :
    (P : Role → Type 0) (app : String) (rs : List Role)
    → app ≢ ""
    → Any P (keep (λ r. r.app_id == app) rs) ↔ Any (λ r. InApp app r × P r) rs
unfolding keep
InApp-keep P app [] e = (λ h. h, λ h. h)
InApp-keep P app (r ∷ rs) e = ground (arith, e, eq_iff r.app_id app, InApp-keep P app rs e)

get_roles_in_iff :
    (P : Role → Type 0) (user app : String) (t : Tables)
    → Any P (get_roles_in user app t)
      ↔ Any (λ r. Joins r.id user t.user_roles × (InApp app r × P r)) t.roles
unfolding get_roles_in
get_roles_in_iff P user app t =
    let joined = get_user_roles_iff (λ r. InApp app r × P r) user t in
    let any = InApp-every P app (get_user_roles user t) in
    let one = InApp-keep P app (get_user_roles user t) in
    elim (text-cases app "") [
      | inl e ↦ simp ((eq_iff app "").1 e) (ground (arith, any e, joined))
      | inr (e, b) ↦ simp b (ground (arith, one e, joined))
    ]

-- A role of the user in the application has a permission that P holds of.
abbrev pub Reaches : (Permission → Type 0) → String → String → Tables → Type 0
Reaches P user app t =
    Any
      (λ r.
        Joins r.id user t.user_roles
        × (InApp app r × Any (λ p. Joins r.id p.id t.role_permissions × P p) t.permissions))
      t.roles

reached_iff :
    (P : Permission → Type 0) (user app : String) (t : Tables)
    → Any (λ r. Any P (get_permissions r.id t)) (get_roles_in user app t) ↔ Reaches P user app t
reached_iff P user app t =
    let roles = get_roles_in_iff (λ r. Any P (get_permissions r.id t)) user app t in
    let one = get_permissions_iff P t in
    (
      λ h. Any-mono _ _ t.roles (λ r k. (k.0, (k.1.0, (one r).0 k.1.1))) (roles.0 h),
      λ h. roles.1 (Any-mono _ _ t.roles (λ r k. (k.0, (k.1.0, (one r).1 k.1.1))) h),
    )

-- With ids that are unique in the table of permissions, ValidatePermission lets a user act on a
-- kind of resource in an application exactly when the roles and the permissions of every role of
-- the user there are read from the database, and some role of the user there has a permission for
-- the action on the kind of resource, whatever the effect of the permission is.
pub validate_permission_iff :
    (io : PermissionIo) (user app kind action : String) (t : Tables)
    → IsKeyed t.permissions
    → (validate_permission io user app kind action t ≡ none) ↔ (
        (io.roles_ok ≡ true)
        × All (λ r. io.permissions_ok r.id ≡ true) (get_roles_in user app t)
        × Reaches (IsFor kind action) user app t)
unfolding validate_permission get_user_permissions
validate_permission_iff io user app kind action t keyed =
    let P = IsFor kind action in
    let checked = check_permissions_iff kind action (get_user_permissions io user app t) in
    let found =
      gather_roles_iff io t keyed P (get_roles_in user app t) (record { seen = []; found = [] })
        (λ q row seen holds. cc seen) in
    let reached = reached_iff P user app t in
    elim (Bool-cases io.roles_ok) [
      | inl e ↦ simp e (ground (arith, checked, found, reached, e))
      | inr e ↦ simp e (ground arith)
    ]
