-- ===== src/Sessions/Service.antt =====
-- internal/service/verification_session.go: opening a session, finding it, and giving it a user.
use lauth.Prelude.{◌+◌, String, ◌==◌, Option, none, some, List, [], ◌∷◌, ◌++◌, ltb, if◌then◌else◌}
use lauth.Sessions.Tables.{
  VerificationSession, PluginStatus, Store, Env, VerifyError, database_failed, session_not_found,
  Answer, ok, err, pending, completed, session_lifetime, session_row, get_session,
  get_active_session, get_active_session_by_identifier, update_session, delete_session, save_status,
  list_status,
}

-- The later of a completed status and the one found so far, which stays where the times agree.
abbrev pub newer_status : PluginStatus → Option PluginStatus → PluginStatus
newer_status s none = s
newer_status s (some t) = if ltb t.updated_at s.updated_at then s else t

-- The loop of CreateSession over the statuses: the completed one with the latest update.
unfoldable pub recent_completed : Option PluginStatus → List PluginStatus → Option PluginStatus
recent_completed best [] = best
recent_completed best (s ∷ ss) =
    recent_completed (if s.status == completed then some (newer_status s best) else best) ss

-- The status that a new session inherits.
abbrev pub inherited_status : String → String → String → PluginStatus → PluginStatus
inherited_status app user action s = record {
  id = "";
  app_id = app;
  user_id = some user;
  identifier = "";
  identifier_type = "";
  action = action;
  plugin = s.plugin;
  status = completed;
  created_at = 0;
  updated_at = 0;
}

-- Saving the inherited status; nothing where the save fails.
abbrev pub inherit :
    Env
    → String
    → String
    → String
    → Option PluginStatus
    → List PluginStatus
    → Option (List PluginStatus)
inherit env app user action none rows = some rows
inherit env app user action (some s) rows =
    if ltb env.now (s.updated_at + session_lifetime)
    then if env.works 1
      then some (save_status env (inherited_status app user action s) rows)
      else none
    else some rows

module _ {C : Type 0} where
  -- Deleting the session that is open already; nothing where the delete fails.
  abbrev pub remove_active :
      Env
      → Option (VerificationSession C)
      → List (VerificationSession C)
      → Option (List (VerificationSession C))
  remove_active env none ss = some ss
  remove_active env (some s) ss = if env.works 3 then some (delete_session s.id ss) else none

  -- `CreateSession` from the deleted session on.
  abbrev pub open_after :
      Env
      → VerificationSession C
      → Option (List (VerificationSession C))
      → Store C
      → Answer (VerificationSession C) × Store C
  open_after env draft none st = (err database_failed, st)
  open_after env draft (some ss) st =
      let s = session_row env (env.uuid 0) draft in
      if env.works 4
      then (ok s, record st { sessions = ss ++ s ∷ [] })
      else (err database_failed, record st { sessions = ss })

  -- The session that CreateSession asks the database to insert.
  abbrev pub user_draft : String → String → String → C → VerificationSession C
  user_draft app user action ctx = record {
    id = "";
    app_id = app;
    user_id = some user;
    identifier = "";
    identifier_type = "";
    action = action;
    status = pending;
    context = ctx;
    created_at = 0;
    updated_at = 0;
    expired_at = 0;
  }

  -- `CreateSession` from the inherited status on.
  abbrev pub create_inherited :
      Env
      → String
      → String
      → String
      → C
      → Option (List PluginStatus)
      → Store C
      → Answer (VerificationSession C) × Store C
  create_inherited env app user action ctx none st = (err database_failed, st)
  create_inherited env app user action ctx (some rows) st =
      let saved = record st { statuses = rows } in
      if env.works 2
      then open_after env (user_draft app user action ctx)
          (remove_active env (get_active_session env app user st.sessions) st.sessions) saved
      else (err database_failed, saved)

  -- CreateSession
  unfoldable pub create_session :
      Env → String → String → String → C → Store C → Answer (VerificationSession C) × Store C
  create_session env app user action ctx st =
      if env.works 0
      then create_inherited env app user action ctx
          (inherit env app user action
            (recent_completed none (list_status env app user action st.statuses)) st.statuses)
          st
      else (err database_failed, st)

  -- CreateSessionWithIdentifier
  unfoldable pub create_session_with_identifier :
      Env
      → String
      → String
      → String
      → String
      → C
      → Store C
      → Answer (VerificationSession C) × Store C
  create_session_with_identifier env app identifier type action ctx st =
      if env.works 2
      then open_after env
          (record (user_draft app "" action ctx) {
            user_id = none;
            identifier = identifier;
            identifier_type = type;
          })
          (remove_active env (get_active_session_by_identifier env app identifier type st.sessions)
            st.sessions)
          st
      else (err database_failed, st)

  -- `UpdateSessionUserID` with the session that GetByID gives.
  abbrev pub set_session_user :
      Env → String → Option (VerificationSession C) → Store C → Option VerifyError × Store C
  set_session_user env user none st = (some session_not_found, st)
  set_session_user env user (some s) st =
      let changed = record s { user_id = some user; updated_at = env.now } in
      if env.works 1
      then (none, record st { sessions = update_session changed st.sessions })
      else (some database_failed, st)

  -- UpdateSessionUserID
  unfoldable pub update_session_user_id :
      Env → String → String → Store C → Option VerifyError × Store C
  update_session_user_id env id user st =
      if env.works 0
      then set_session_user env user (get_session env id st.sessions) st
      else (some database_failed, st)
