-- ===== src/Sessions/Opened.antt =====
-- What CreateSession of internal/service/verification_session.go opens, and what it inherits.
use lauth.Prelude.{
  ℕ, ◌+◌, ◌<◌, String, eq_refl, ◌≡◌, refl, inl, inr, true, Option, none, some, List, [], ◌∷◌, ◌++◌,
  keep, keep-append, ltb, Bool-cases, arith, All, All-keep,
}
use lauth.Sessions.Tables.{
  VerificationSession, PluginStatus, Store, Env, ok, pending, session_lifetime, of_user,
  session_row, get_active_session, newest, list_status, save_status, delete_session,
}
use lauth.Sessions.Service.{
  recent_completed, inherited_status, inherit, remove_active, open_after, user_draft,
  create_session,
}

inherit-some :
    (env : Env) (app user action : String) (o : Option PluginStatus) (rows : List PluginStatus)
    → env.works 1 ≡ true
    → (kept : List PluginStatus) × (inherit env app user action o rows ≡ some kept)
inherit-some env app user action none rows h = (rows, refl)
inherit-some env app user action (some s) rows h =
    elim (Bool-cases (ltb env.now (s.updated_at + session_lifetime))) [
      | inl e ↦ (save_status env (inherited_status app user action s) rows, simp (e, h))
      | inr e ↦ (rows, simp e)
    ]

module _ {C : Type 0} where
  -- The row was created before a time.
  abbrev pub IsOlder : ℕ → VerificationSession C → Type 0
  IsOlder t s = s.created_at < t

  newest_last :
      (env : Env) (s : VerificationSession C) (ss : List (VerificationSession C))
      → All (IsOlder s.created_at) ss
      → newest env (ss ++ s ∷ []) ≡ some s
  unfolding newest
  newest_last env s [] h = refl
  newest_last env s (t ∷ ts) h = simp (newest_last env s ts h.1) (ground (arith, h.0))

  remove_active-some :
      (env : Env) (t : ℕ) (o : Option (VerificationSession C)) (ss : List (VerificationSession C))
      → env.works 3 ≡ true
      → All (IsOlder t) ss
      → (kept : List (VerificationSession C)) × (remove_active env o ss ≡ some kept)
        × All (IsOlder t) kept
  remove_active-some env t none ss h older = (ss, refl, older)
  remove_active-some env t (some s) ss h older =
      (delete_session s.id ss, simp h, unfold delete_session in All-keep _ _ ss older)

  open_after_active :
      (env later : Env) (app user action : String) (ctx : C) (kept : List (VerificationSession C))
      (st : Store C)
      → env.works 4 ≡ true
      → All (IsOlder env.now) kept
      → later.now < env.now + session_lifetime
      → let a = open_after env (user_draft app user action ctx) (some kept) st in
        let s = session_row env (env.uuid 0) (user_draft app user action ctx) in
        (a.0 ≡ ok s) × (get_active_session later app user a.1.sessions ≡ some s)
  unfolding get_active_session session_row
  open_after_active env later app user action ctx kept st h older soon =
      let s = session_row env (env.uuid 0) (user_draft app user action ctx) in
      let here : of_user later app user s ≡ true =
        simp (eq_refl app, eq_refl user) (ground arith) in
      simp h (
        refl,
        rw (keep-append (of_user later app user) kept (s ∷ [])) (
            unfold keep in
            simp here
              (newest_last later s (keep (of_user later app user) kept) (All-keep _ _ kept older))),
      )

  -- Where the database answers, CreateSession opens a pending session for the user and the
  -- action, and until 30 minutes have passed it is the session that GetActiveSession gives. Rows
  -- that were there before are older.
  pub create_session_active :
      (env later : Env) (app user action : String) (ctx : C) (st : Store C)
      → ((k : ℕ) → env.works k ≡ true)
      → All (IsOlder env.now) st.sessions
      → later.now < env.now + session_lifetime
      → let a = create_session env app user action ctx st in
        (s : VerificationSession C) × (a.0 ≡ ok s)
        × (get_active_session later app user a.1.sessions ≡ some s)
        × (s.user_id ≡ some user)
        × (s.action ≡ action)
        × (s.status ≡ pending)
        × (s.context ≡ ctx)
  unfolding create_session session_row
  create_session_active env later app user action ctx st works older soon =
      let (rows, saved) =
        inherit-some env app user action
          (recent_completed none (list_status env app user action st.statuses)) st.statuses
          (works 1) in
      let (kept, removed, older') =
        remove_active-some env env.now (get_active_session env app user st.sessions) st.sessions
          (works 3) older in
      let (opened, active) =
        open_after_active env later app user action ctx kept (record st { statuses = rows })
          (works 4) older' soon in
      (
        session_row env (env.uuid 0) (user_draft app user action ctx),
        simp (works 0, saved, works 2, removed) opened,
        simp (works 0, saved, works 2, removed) active,
        refl,
        refl,
        refl,
        refl,
      )
