-- ===== src/Sessions/Expired.antt =====
-- Sessions of internal/repository/verification_session_postgres.go whose time has passed.
use lauth.Prelude.{
  ◌≤◌, String, eq_iff, ◌≡◌, refl, ap, ◌∙◌, inl, inr, ◌&&◌, none, some, List, [], ◌∷◌, keep,
  keep-keep, keep-ext, Bool-cases, arith, All, All-every,
}
use lauth.Sessions.Tables.{
  VerificationSession, Store, Env, VerifyError, err, database_failed, session_not_found,
  get_session, get_active_session, get_active_session_by_identifier, newest, of_user, of_identifier,
  live, delete_expired_sessions,
}
use lauth.Sessions.Service.{update_session_user_id}
use lauth.Sessions.Status.{Manager, update_plugin_status_by_session}
use lauth.Sessions.Validation.{validate_plugin_status_by_session}

module _ {C : Type 0} where
  -- A session of that id has expired.
  abbrev pub IsPast : Env → String → VerificationSession C → Type 0
  IsPast env id s = s.id ≡ id → s.expired_at ≤ env.now

  get_session-none :
      (env : Env) (id : String) (ss : List (VerificationSession C))
      → All (IsPast env id) ss
      → get_session env id ss ≡ none
  unfolding get_session
  get_session-none env id [] h = refl
  get_session-none env id (s ∷ ss) h =
      ground (arith, eq_iff s.id id, h.0, get_session-none env id ss h.1)

  -- Under the id of a session that has expired, or that there never was, nothing is saved, no user
  -- is set and no answer is given, whether the database works or not.
  pub expired_refused :
      (env : Env) (mgr : Manager C) (id plugin status user : String) (st : Store C)
      → All (IsPast env id) st.sessions
      → ((e : VerifyError) × (update_plugin_status_by_session env mgr id plugin status st
            ≡ (some e, st)))
        × ((e : VerifyError) × (update_session_user_id env id user st ≡ (some e, st)))
        × ((e : VerifyError) × (validate_plugin_status_by_session env mgr id st ≡ err e))
  unfolding update_plugin_status_by_session update_session_user_id validate_plugin_status_by_session
  expired_refused env mgr id plugin status user st past =
      let gone = get_session-none env id st.sessions past in
      elim (Bool-cases (env.works 0)) [
        | inl e ↦
            simp (e, gone)
              ((session_not_found, refl), (session_not_found, refl), (session_not_found, refl))
        | inr e ↦ simp e ((database_failed, refl), (database_failed, refl), (database_failed, refl))
      ]

  live-of_user :
      (env later : Env) (app user : String) (s : VerificationSession C)
      → env.now ≤ later.now
      → (live env s && of_user later app user s) ≡ of_user later app user s
  live-of_user env later app user s h = ground arith

  live-of_identifier :
      (env later : Env) (app identifier type : String) (s : VerificationSession C)
      → env.now ≤ later.now
      → (live env s && of_identifier later app identifier type s)
        ≡ of_identifier later app identifier type s
  live-of_identifier env later app identifier type s h = ground arith

  get_session-live :
      (env later : Env) (id : String) (ss : List (VerificationSession C))
      → env.now ≤ later.now
      → get_session later id (keep (live env) ss) ≡ get_session later id ss
  unfolding get_session keep
  get_session-live env later id [] h = refl
  get_session-live env later id (s ∷ ss) h = ground (arith, get_session-live env later id ss h)

  -- DeleteExpired changes no later answer about sessions: not the session of an id, nor the active
  -- one of a user or an identifier.
  pub delete_expired_sessions_unseen :
      (env later : Env) (id app user identifier type : String) (ss : List (VerificationSession C))
      → env.now ≤ later.now
      → (get_session later id (delete_expired_sessions env ss) ≡ get_session later id ss)
        × (get_active_session later app user (delete_expired_sessions env ss)
            ≡ get_active_session later app user ss)
        × (get_active_session_by_identifier later app identifier type
              (delete_expired_sessions env ss)
            ≡ get_active_session_by_identifier later app identifier type ss)
  unfolding delete_expired_sessions get_active_session get_active_session_by_identifier
  delete_expired_sessions_unseen env later id app user identifier type ss h = (
    get_session-live env later id ss h,
    ap (newest later) (
        keep-keep _ _ ss
        ∙ keep-ext _ _ ss (All-every _ ss (λ s. live-of_user env later app user s h))),
    ap (newest later) (
        keep-keep _ _ ss
        ∙ keep-ext _ _ ss
            (All-every _ ss (λ s. live-of_identifier env later app identifier type s h))),
  )
