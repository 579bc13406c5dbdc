-- ===== src/Sessions/Validation.antt =====
-- internal/service/verification_plugin.go: whether the plugins that an action needs are satisfied.
use lauth.Prelude.{
  String, ◌==◌, Bool, true, false, Option, none, some, List, [], ◌∷◌, ltb, if◌then◌else◌,
}
use lauth.Prelude.Dict.{Dict, lookup, insert}
use lauth.Sessions.Tables.{
  VerificationSession, PluginStatus, Store, Env, database_failed, session_not_found,
  session_expired, no_active_session, Answer, ok, err, completed, get_session, get_active_session,
  list_status, list_status_by_identifier,
}
use lauth.Sessions.Status.{Verifiable, Plugin, Manager}
use lauth.Sessions.Requirements.{Requirement, get_required_plugins}
use lauth.Sessions.Walk.{VerificationStatus, mark_completed, by_validity, validate_requirements}

-- buildStatusMaps: the status and the row of each plugin, the last one where it has several.
unfoldable pub build_status_maps :
    List PluginStatus → Dict String → Dict PluginStatus → Dict String × Dict PluginStatus
build_status_maps [] statuses rows = (statuses, rows)
build_status_maps (s ∷ ss) statuses rows =
    build_status_maps ss (insert s.plugin s.status statuses) (insert s.plugin s rows)

abbrev pub user_or_empty : Option String → String
user_or_empty none = ""
user_or_empty (some u) = u

abbrev pub has_completed : Option String → Bool
has_completed none = false
has_completed (some status) = status == completed

module _ {C : Type 0} where
  -- `validatePluginVerification` with the record of the plugin; none is an error.
  abbrev pub valid_record : String → String → Verifiable C → Option PluginStatus → Option Bool
  valid_record user action v none = some false
  valid_record user action v (some row) = v.validate_verification user action row.id

  abbrev pub valid_verifiable :
      Option String → String → String → Dict PluginStatus → Option (Verifiable C) → Option Bool
  valid_verifiable user action name rows none = some true
  valid_verifiable user action name rows (some v) =
      valid_record (user_or_empty user) action v (lookup name rows)

  -- pluginValidator.validate
  unfoldable pub validate : Option String → String → Dict PluginStatus → Plugin C → Option Bool
  validate user action rows p = valid_verifiable user action p.name rows p.verifiable

  -- `validateSinglePlugin` from the plugin on, where its status is not completed.
  abbrev pub by_plugin :
      VerificationSession C
      → Dict PluginStatus
      → Requirement
      → Option (Plugin C)
      → Answer (Bool × Requirement)
  by_plugin s rows r none = ok (true, r)
  by_plugin s rows r (some p) = by_validity r (validate s.user_id s.action rows p)

  -- validateSinglePlugin
  unfoldable pub validate_single :
      Manager C
      → VerificationSession C
      → Dict String
      → Dict PluginStatus
      → Requirement
      → Answer (Bool × Requirement)
  validate_single mgr s statuses rows r =
      if has_completed (lookup r.name statuses)
      then ok (true, mark_completed r)
      else by_plugin s rows r (mgr.get_plugin s.app_id r.name)

  abbrev pub listed_for :
      Env → VerificationSession C → Option String → List PluginStatus → List PluginStatus
  listed_for env s (some user) rows = list_status env s.app_id user s.action rows
  listed_for env s none rows =
      list_status_by_identifier env s.app_id s.identifier s.identifier_type s.action rows

  -- getStatusesBySession
  unfoldable pub get_statuses_by_session :
      Env → VerificationSession C → List PluginStatus → List PluginStatus
  get_statuses_by_session env s rows = listed_for env s s.user_id rows

  -- The user that the plugins are asked about: the identifier where the session has no user.
  abbrev pub asked_user : VerificationSession C → Option String → String
  asked_user s none = s.identifier
  asked_user s (some user) = user

  -- `ValidatePluginStatusBySession` with the statuses that are listed.
  unfoldable pub validate_session :
      Env → Manager C → VerificationSession C → List PluginStatus → Answer VerificationStatus
  validate_session env mgr s listed =
      let (statuses, rows) = build_status_maps listed [] [] in
      validate_requirements env (validate_single mgr s statuses rows)
        (get_required_plugins mgr s.app_id s.action s.context (asked_user s s.user_id))

  -- `ValidatePluginStatusBySession` with the session that GetByID gives.
  abbrev pub validate_found :
      Env → Manager C → Option (VerificationSession C) → Store C → Answer VerificationStatus
  validate_found env mgr none st = err session_not_found
  validate_found env mgr (some s) st =
      if ltb s.expired_at env.now
      then err session_expired
      else if env.works 1
      then validate_session env mgr s (get_statuses_by_session env s st.statuses)
      else err database_failed

  -- ValidatePluginStatusBySession
  unfoldable pub validate_plugin_status_by_session :
      Env → Manager C → String → Store C → Answer VerificationStatus
  validate_plugin_status_by_session env mgr id st =
      if env.works 0
      then validate_found env mgr (get_session env id st.sessions) st
      else err database_failed

  abbrev validate_active :
      Env → Manager C → Option (VerificationSession C) → Store C → Answer VerificationStatus
  validate_active env mgr none st = err no_active_session
  validate_active env mgr (some s) st = validate_plugin_status_by_session env mgr s.id st

  -- ValidatePluginStatus; the query of the active session is call 2 of the database.
  unfoldable pub validate_plugin_status :
      Env → Manager C → String → String → Store C → Answer VerificationStatus
  validate_plugin_status env mgr app user st =
      if env.works 2
      then validate_active env mgr (get_active_session env app user st.sessions) st
      else err database_failed
