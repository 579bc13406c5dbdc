-- ===== src/Access/Started.antt =====
-- The starts of a new installation, by internal/service/super_admin.go.
use lauth.Prelude.{
  String, eq_refl, ◌≡◌, ◌≢◌, refl, ◌∙◌, inl, inr, true, some, List, [], ◌∷◌, ◌++◌, keep, Bool-cases,
  text-cases, All,
}
use lauth.Accounts.Users.{User, Bcrypt, create_user, hash_password}
use lauth.Access.SuperAdmins.{is_super_admin}
use lauth.Access.FirstStart.{
  Installation, Start, admin_password, list_users, find_admin, new_admin_user, create_super_admin,
  link_admin, create_admin_user, init_users, check_and_init_super_admin,
}

abbrev pub new_installation : Installation
new_installation = record { apps = []; users = []; admins = [] }

-- The first user, with the hash of the initial password.
abbrev pub first_user : String → String → String → User
first_user app id hash = record (new_admin_user app) { id = id; password = hash }

-- One application with one user, who is the administrator.
abbrev pub installed : String → String → String → Installation
installed app id hash = record {
  apps = app ∷ [];
  users = first_user app id hash ∷ [];
  admins = id ∷ [];
}

-- Every call of the database works.
abbrev pub Works : Start → Type 0
Works s =
    (s.admins_ok ≡ true)
    × (s.apps_ok ≡ true)
    × (s.app_write_ok ≡ true)
    × (s.users_ok ≡ true)
    × (s.admin_read_ok ≡ true)
    × (s.user_write_ok ≡ true)
    × (s.admin_write_ok ≡ true)

-- How far the starts of a new installation have come.
pub data IsStage (hash : String) : Installation → Type 0 where
  at_nothing : IsStage hash new_installation
  at_app : (app : String) → IsStage hash (record new_installation { apps = app ∷ [] })
  at_user :
      (app id : String) → id ≢ "" → IsStage hash (record (installed app id hash) { admins = [] })
  at_admin : (app id : String) → IsStage hash (installed app id hash)

module _ (b : Bcrypt) where
  -- Starts one after the other.
  abbrev pub starts : List Start → Installation → Installation
  starts [] t = t
  starts (s ∷ ss) t = starts ss (check_and_init_super_admin b s t).1

  module _ (hash : String) (hashed : b.hash admin_password ≡ some hash) where
    create_admin_user-IsStage :
        (s : Start) (app : String)
        → s.new_user_id ≢ ""
        → IsStage hash (create_admin_user b s app (record new_installation { apps = app ∷ [] })).1
    unfolding create_admin_user create_user hash_password create_super_admin
    create_admin_user-IsStage s app ne = elim (Bool-cases s.user_write_ok) [
      | inr e ↦ simp e (at_app app)
      | inl e ↦ elim (Bool-cases s.admin_write_ok) [
        | inl f ↦ simp (e, f, hashed) (at_admin app s.new_user_id)
        | inr f ↦ simp (e, f, hashed) (at_user app s.new_user_id ne)
      ]
    ]

    init_users-IsStage :
        (s : Start) (app : String)
        → s.new_user_id ≢ ""
        → IsStage hash (init_users b s app (record new_installation { apps = app ∷ [] })).1
    unfolding init_users find_admin keep
    init_users-IsStage s app ne = elim (Bool-cases s.users_ok) [
      | inr e ↦ simp e (at_app app)
      | inl e ↦ simp e (create_admin_user-IsStage s app ne)
    ]

    found_first :
        (app id : String)
        → find_admin (list_users app (first_user app id hash ∷ [])) ≡ some (first_user app id hash)
    unfolding find_admin keep
    found_first app id = simp (eq_refl app) refl

    link_admin-IsStage :
        (s : Start) (app id : String)
        → id ≢ ""
        → IsStage hash
            (link_admin s
              (first_user app id hash)
              (record (installed app id hash) { admins = [] })).1
    unfolding link_admin create_super_admin is_super_admin
    link_admin-IsStage s app id ne = elim (Bool-cases s.admin_read_ok) [
      | inr e ↦ simp e (at_user app id ne)
      | inl e ↦ elim (Bool-cases s.admin_write_ok) [
        | inl f ↦ simp (e, f) (at_admin app id)
        | inr f ↦ simp (e, f) (at_user app id ne)
      ]
    ]

    init_found-IsStage :
        (s : Start) (app id : String)
        → id ≢ ""
        → IsStage hash (init_users b s app (record (installed app id hash) { admins = [] })).1
    unfolding init_users
    init_found-IsStage s app id ne = elim (Bool-cases s.users_ok) [
      | inr e ↦ simp e (at_user app id ne)
      | inl e ↦ elim (text-cases id "") [
        | inl f ↦ absurd (ne f)
        | inr f ↦ simp (e, found_first app id, f.1) (link_admin-IsStage s app id ne)
      ]
    ]

    -- A start that does not come to the users changes nothing.
    start-IsStage :
        (s : Start) (t : Installation)
        → s.new_user_id ≢ ""
        → IsStage hash t
        → IsStage hash (check_and_init_super_admin b s t).1
    unfolding check_and_init_super_admin
    start-IsStage s t ne at_nothing = elim (Bool-cases s.admins_ok) [
      | inr e ↦ simp e at_nothing
      | inl e ↦ elim (Bool-cases s.apps_ok) [
        | inr f ↦ simp (e, f) at_nothing
        | inl f ↦ elim (Bool-cases s.app_write_ok) [
          | inr g ↦ simp (e, f, g) at_nothing
          | inl g ↦ simp (e, f, g) (init_users-IsStage s s.new_app_id ne)
        ]
      ]
    ]
    start-IsStage s t ne (at_app app) = elim (Bool-cases s.admins_ok) [
      | inr e ↦ simp e (at_app app)
      | inl e ↦ elim (Bool-cases s.apps_ok) [
        | inr f ↦ simp (e, f) (at_app app)
        | inl f ↦ simp (e, f) (init_users-IsStage s app ne)
      ]
    ]
    start-IsStage s t ne (at_user app id some_id) = elim (Bool-cases s.admins_ok) [
      | inr e ↦ simp e (at_user app id some_id)
      | inl e ↦ elim (Bool-cases s.apps_ok) [
        | inr f ↦ simp (e, f) (at_user app id some_id)
        | inl f ↦ simp (e, f) (init_found-IsStage s app id some_id)
      ]
    ]
    start-IsStage s t ne (at_admin app id) = elim (Bool-cases s.admins_ok) [
      | inr e ↦ simp e (at_admin app id)
      | inl e ↦ simp e (at_admin app id)
    ]

    starts-IsStage :
        (ss : List Start) (t : Installation)
        → All (λ s. s.new_user_id ≢ "") ss
        → IsStage hash t
        → IsStage hash (starts ss t)
    starts-IsStage [] t ne h = h
    starts-IsStage (s ∷ ss) t ne h =
        starts-IsStage ss (check_and_init_super_admin b s t).1 ne.1 (start-IsStage s t ne.0 h)

    -- A start that works ends the installation.
    last_start :
        (s : Start) (t : Installation)
        → Works s
        → IsStage hash t
        → (app : String) × (id : String) × ((check_and_init_super_admin b s t).1
            ≡ installed app id hash)
    unfolding check_and_init_super_admin init_users create_admin_user create_user hash_password
        create_super_admin link_admin is_super_admin find_admin keep
    last_start s t (a, c, d, e, f, g, h) at_nothing =
        (s.new_app_id, s.new_user_id, simp (a, c, d, e, g, hashed, h) refl)
    last_start s t (a, c, d, e, f, g, h) (at_app app) =
        (app, s.new_user_id, simp (a, c, e, g, hashed, h) refl)
    last_start s t (a, c, d, e, f, g, h) (at_user app id some_id) = elim (text-cases id "") [
      | inl k ↦ absurd (some_id k)
      | inr k ↦ (app, id, simp (a, c, e, eq_refl app, k.1, f, h) refl)
    ]
    last_start s t w (at_admin app id) = (app, id, simp (w.0) refl)

    -- Nothing is done once there is an administrator.
    later_starts :
        (ss : List Start) (app id : String)
        → starts ss (installed app id hash) ≡ installed app id hash
    unfolding check_and_init_super_admin
    later_starts [] app id = refl
    later_starts (s ∷ ss) app id = elim (Bool-cases s.admins_ok) [
      | inl e ↦ simp e (later_starts ss app id)
      | inr e ↦ simp e (later_starts ss app id)
    ]

  starts-append :
      (before after : List Start) (s : Start) (t : Installation)
      → starts (before ++ s ∷ after) t
        ≡ starts after (check_and_init_super_admin b s (starts before t)).1
  starts-append [] after s t = refl
  starts-append (x ∷ xs) after s t = starts-append xs after s (check_and_init_super_admin b x t).1

  -- Where bcrypt hashes the initial password, a new installation that is started any number of
  -- times, with any calls of the database failing, and then once with all of them working, ends
  -- with one application, one user in it with the name `admin` and the initial password, and that
  -- user as the one super administrator; whatever starts follow change nothing.
  pub starts-installed :
      (hash : String) (before after : List Start) (s : Start)
      → b.hash admin_password ≡ some hash
      → All (λ x. x.new_user_id ≢ "") before
      → Works s
      → (app : String) × (id : String) × (starts (before ++ s ∷ after) new_installation
          ≡ installed app id hash)
  starts-installed hash before after s hashed ne works =
      let stage = starts-IsStage hash hashed before new_installation ne at_nothing in
      let (app, id, e) = last_start hash hashed s (starts before new_installation) works stage in
      (
        app,
        id,
        starts-append before after s new_installation
            ∙ rw e (later_starts hash hashed after app id),
      )
