-- ===== src/Access/Permitted.antt =====
-- Who has a permission by internal/service/role.go.
use lauth.Prelude.{
  String, eq_iff, ◌≡◌, ◌↔◌, ◌⊎◌, Bool, true, List, [], ◌∷◌, arith, Any, Any-keep_iff, Any-mono,
}
use lauth.Access.Roles.{
  Role, Permission, Link, Tables, is_linked, get_user_roles, get_permissions, has_code, any_role,
  has_permission,
}

-- A row of the table joins the role and the other id.
abbrev pub Joins : String → String → List Link → Type 0
Joins role other links = Any (λ l. (l.role_id ≡ role) × (l.other_id ≡ other)) links

is_linked_iff :
    (role other : String) (links : List Link)
    → (is_linked role other links ≡ true) ↔ Joins role other links
is_linked_iff role other [] = (λ h. cc, λ h. absurd h)
is_linked_iff role other (l ∷ links) =
    ground (arith, eq_iff l.role_id role, eq_iff l.other_id other, is_linked_iff role other links)

has_code_iff :
    (code : String) (ps : List Permission) → (has_code code ps ≡ true) ↔ Any (λ p. p.code ≡ code) ps
has_code_iff code [] = (λ h. cc, λ h. absurd h)
has_code_iff code (p ∷ ps) = ground (arith, eq_iff p.code code, has_code_iff code ps)

-- The permissions of a role are those that a row joins with it.
pub get_permissions_iff :
    (P : Permission → Type 0) (t : Tables) (r : Role)
    → Any P (get_permissions r.id t)
      ↔ Any (λ p. Joins r.id p.id t.role_permissions × P p) t.permissions
unfolding get_permissions
get_permissions_iff P t r =
    let kept =
      Any-keep_iff P (λ (p : Permission). is_linked r.id p.id t.role_permissions) t.permissions in
    let row = λ (p : Permission). is_linked_iff r.id p.id t.role_permissions in
    (
      λ h. Any-mono _ _ t.permissions (λ p k. ((row p).0 k.0, k.1)) (kept.0 h),
      λ h. kept.1 (Any-mono _ _ t.permissions (λ p k. ((row p).1 k.0, k.1)) h),
    )

-- The roles of a user are those that a row joins with the user.
pub get_user_roles_iff :
    (P : Role → Type 0) (user : String) (t : Tables)
    → Any P (get_user_roles user t) ↔ Any (λ r. Joins r.id user t.user_roles × P r) t.roles
unfolding get_user_roles
get_user_roles_iff P user t =
    let kept = Any-keep_iff P (λ (r : Role). is_linked r.id user t.user_roles) t.roles in
    let row = λ (r : Role). is_linked_iff r.id user t.user_roles in
    (
      λ h. Any-mono _ _ t.roles (λ r k. ((row r).0 k.0, k.1)) (kept.0 h),
      λ h. kept.1 (Any-mono _ _ t.roles (λ r k. ((row r).1 k.0, k.1)) h),
    )

-- The role has a permission with the code.
abbrev pub Allows : String → Tables → Role → Type 0
Allows code t r = Any (λ p. Joins r.id p.id t.role_permissions × (p.code ≡ code)) t.permissions

role_code_iff :
    (code : String) (t : Tables) (r : Role)
    → (has_code code (get_permissions r.id t) ≡ true) ↔ Allows code t r
role_code_iff code t r = ground (
  arith,
  has_code_iff code (get_permissions r.id t),
  get_permissions_iff (λ p. p.code ≡ code) t r,
)

any_role_iff :
    (code : String) (t : Tables) (rs : List Role)
    → (any_role code t rs ≡ true) ↔ Any (Allows code t) rs
any_role_iff code t [] = (λ h. cc, λ h. absurd h)
any_role_iff code t (r ∷ rs) = ground (arith, role_code_iff code t r, any_role_iff code t rs)

-- A user has a permission exactly when the user is a super administrator, or some role that is
-- joined with the user is joined with a permission that has the code.
pub has_permission_iff :
    (super : Bool) (user code : String) (t : Tables)
    → (has_permission super user code t ≡ true)
      ↔ ((super ≡ true) ⊎ Any (λ r. Joins r.id user t.user_roles × Allows code t r) t.roles)
unfolding has_permission
has_permission_iff super user code t =
    ground (
      arith,
      any_role_iff code t (get_user_roles user t),
      get_user_roles_iff (Allows code t) user t,
    )
