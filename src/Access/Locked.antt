-- ===== src/Access/Locked.antt =====
-- No call of internal/service/role.go changes a system role or its permissions.
use lauth.Prelude.{
  String, ◌==◌, ◌≡◌, ◌≢◌, refl, sym, ◌∙◌, inl, inr, true, not, ◌&&◌, Option, none, some, List, [],
  ◌∷◌, Bool-cases, text-cases,
}
use lauth.Access.Roles.{
  Role, Tables, RoleIo, RoleAnswer, get_role, get_role_by_name, written, create_named, create_role,
  save_role, is_taken, update_existing, with_role, update_role, delete_rows, if_unlocked,
  delete_role, link_all, unlink_all, add_permissions, remove_permissions, if_found, add_users,
  remove_users,
}
use lauth.Access.SystemRoles.{
  RoleCall, create_call, update_call, delete_call, add_permissions_call, remove_permissions_call,
  add_users_call, remove_users_call, role_call, role_calls, links_of, IsKept, kept, get_role-append,
  get_role-save, get_role-delete, links-delete, links-unlink, links-link,
}

written-IsKept :
    (r : Role) (io : RoleIo) (u t : Tables) → IsKept r t u → IsKept r t (written io u t).1
written-IsKept r io u t k = elim (Bool-cases io.write_ok) [
  | inl e ↦ simp e k
  | inr e ↦ simp e (kept r t)
]

if_unlocked-IsKept :
    (r : Role) (io : RoleIo) (f : Tables → Tables) (o : Option Role) (t : Tables)
    → IsKept r t (f t)
    → IsKept r t (if_unlocked io f o t).1
if_unlocked-IsKept r io f none t k = kept r t
if_unlocked-IsKept r io f (some role) t k = elim (Bool-cases role.is_system) [
  | inl e ↦ simp e (kept r t)
  | inr e ↦ simp e (written-IsKept r io (f t) t k)
]

if_found-IsKept :
    (r : Role) (io : RoleIo) (f : Tables → Tables) (o : Option Role) (t : Tables)
    → IsKept r t (f t)
    → IsKept r t (if_found io f o t).1
if_found-IsKept r io f none t k = kept r t
if_found-IsKept r io f (some role) t k = written-IsKept r io (f t) t k

with_role-IsKept :
    (r : Role) (io : RoleIo) (f : Option Role → Tables → RoleAnswer) (id : String) (t : Tables)
    → IsKept r t (f (get_role id t.roles) t).1
    → IsKept r t (with_role io f id t).1
with_role-IsKept r io f id t k = elim (Bool-cases io.id_ok) [
  | inl e ↦ simp e k
  | inr e ↦ simp e (kept r t)
]

-- A change of another role's rows, or of the system role, which is refused.
locked-IsKept :
    (r : Role) (io : RoleIo) (f : Tables → Tables) (id : String) (t : Tables)
    → get_role r.id t.roles ≡ some r
    → r.is_system ≡ true
    → (id ≢ r.id → IsKept r t (f t))
    → IsKept r t (with_role io (if_unlocked io f) id t).1
locked-IsKept r io f id t found system k =
    with_role-IsKept r io (if_unlocked io f) id t (elim (text-cases id r.id) [
      | inl e ↦ rw (e, found) (simp system (kept r t))
      | inr n ↦ if_unlocked-IsKept r io f (get_role id t.roles) t (k n.0)
    ])

create_named-IsKept :
    (r : Role) (io : RoleIo) (app : String) (role : Role) (o : Option Role) (t : Tables)
    → get_role r.id t.roles ≡ some r
    → IsKept r t (create_named io app role o t).1
create_named-IsKept r io app role (some other) t found = kept r t
create_named-IsKept r io app role none t found = written-IsKept r io _ t (record {
  role = get_role-append r.id t.roles (record role { app_id = app }) r found ∙ sym found;
  links = refl;
})

update_existing-IsKept :
    (r : Role) (io : RoleIo) (role : Role) (o : Option Role) (t : Tables)
    → role.id ≢ r.id
    → IsKept r t (update_existing io role o t).1
update_existing-IsKept r io role none t n = kept r t
update_existing-IsKept r io role (some existing) t n =
    let renamed = not (role.name == existing.name) in
    let saved =
      written-IsKept r io (record t { roles = save_role role t.roles }) t
        (record { role = get_role-save r.id role t.roles n; links = refl }) in
    elim (Bool-cases existing.is_system) [
      | inl e ↦ simp e (kept r t)
      | inr e ↦ elim (Bool-cases (renamed && not io.name_ok)) [
        | inl f ↦ simp (e, f) (kept r t)
        | inr f ↦
            elim (Bool-cases
              (renamed && is_taken role (get_role_by_name role.app_id role.name t.roles))) [
                | inl g ↦ simp (e, f, g) (kept r t)
                | inr g ↦ simp (e, f, g) saved
              ]
      ]
    ]

update-IsKept :
    (r : Role) (io : RoleIo) (role : Role) (t : Tables)
    → get_role r.id t.roles ≡ some r
    → r.is_system ≡ true
    → IsKept r t (with_role io (update_existing io role) role.id t).1
update-IsKept r io role t found system =
    with_role-IsKept r io (update_existing io role) role.id t (elim (text-cases role.id r.id) [
      | inl e ↦ rw (e, found) (simp system (kept r t))
      | inr n ↦ update_existing-IsKept r io role (get_role role.id t.roles) t n.0
    ])

create-IsKept :
    (r : Role) (io : RoleIo) (app : String) (role : Role) (t : Tables)
    → get_role r.id t.roles ≡ some r
    → IsKept r t (create_role io app role t).1
unfolding create_role
create-IsKept r io app role t found = elim (Bool-cases io.name_ok) [
  | inl e ↦
      simp e (create_named-IsKept r io app role (get_role_by_name app role.name t.roles) t found)
  | inr e ↦ simp e (kept r t)
]

role_call-IsKept :
    (r : Role) (c : RoleCall) (t : Tables)
    → get_role r.id t.roles ≡ some r
    → r.is_system ≡ true
    → IsKept r t (role_call c t).1
unfolding update_role delete_role add_permissions remove_permissions add_users remove_users
role_call-IsKept r (create_call io app role) t found system = create-IsKept r io app role t found
role_call-IsKept r (update_call io role) t found system = update-IsKept r io role t found system
role_call-IsKept r (delete_call io id) t found system =
    locked-IsKept r io (delete_rows id) id t found system (λ n. record {
      role = get_role-delete r.id id t.roles n;
      links = links-delete r.id id t.role_permissions n;
    })
role_call-IsKept r (add_permissions_call io id ids) t found system =
    locked-IsKept r io _ id t found system
      (λ n. record { role = refl; links = links-link r.id id ids t.role_permissions n })
role_call-IsKept r (remove_permissions_call io id ids) t found system =
    locked-IsKept r io _ id t found system
      (λ n. record { role = refl; links = links-unlink r.id id ids t.role_permissions n })
role_call-IsKept r (add_users_call io id users) t found system =
    let f : Tables → Tables = λ u. record u { user_roles = link_all id users u.user_roles } in
    with_role-IsKept r io (if_found io f) id t
      (if_found-IsKept r io f (get_role id t.roles) t (record { role = refl; links = refl }))
role_call-IsKept r (remove_users_call io id users) t found system =
    let f : Tables → Tables = λ u. record u { user_roles = unlink_all id users u.user_roles } in
    with_role-IsKept r io (if_found io f) id t
      (if_found-IsKept r io f (get_role id t.roles) t (record { role = refl; links = refl }))

-- A system role and its permissions stay as they are, whatever calls of the role service are made,
-- and whichever of their calls of the database fail. The permission service, which can change or
-- delete a permission that the role has, is not called in between.
pub system_role_stays :
    (cs : List RoleCall) (r : Role) (t : Tables)
    → get_role r.id t.roles ≡ some r
    → r.is_system ≡ true
    → (get_role r.id (role_calls cs t).roles ≡ some r)
      × (links_of r.id (role_calls cs t).role_permissions ≡ links_of r.id t.role_permissions)
system_role_stays [] r t found system = (found, refl)
system_role_stays (c ∷ cs) r t found system =
    let k = role_call-IsKept r c t found system in
    let (role, links) = system_role_stays cs r (role_call c t).1 (k.role ∙ found) system in
    (role, links ∙ k.links)
