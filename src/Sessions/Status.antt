-- ===== src/Sessions/Status.antt =====
-- internal/service/verification_status.go: saving what a plugin reports, and clearing it.
use lauth.Prelude.{String, ◌==◌, Bool, Option, none, some, List, ltb, if◌then◌else◌}
use lauth.Sessions.Tables.{
  VerificationSession, PluginStatus, Store, Env, VerifyError, database_failed, session_not_found,
  session_expired, plugin_failed, completed, get_session, save_status,
}

-- Verifiable, as what a plugin answers; none is an error.
pub record Verifiable (C : Type 0) : Type 0 where
  pub needs_verification : String → String → C → Option Bool
  pub validate_verification : String → String → String → Option Bool
  pub on_verification_success : String → String → C → Bool

-- Plugin, by its metadata and, where it has it, its Verifiable.
pub record Plugin (C : Type 0) : Type 0 where
  pub name : String
  pub required : Bool
  pub stage : String
  pub actions : List String
  pub verifiable : Option (Verifiable C)

-- PluginConfig, by what the services look at.
pub record PluginConfig : Type 0 where
  pub config_name : String
  pub enabled : Bool

-- Manager: ListPlugins, GetPluginConfigs (none is an error) and GetPlugin.
pub record Manager (C : Type 0) : Type 0 where
  pub list_plugins : String → List String
  pub get_plugin_configs : String → Option (List PluginConfig)
  pub get_plugin : String → String → Option (Plugin C)

-- The identifier of a row, which is empty where the row has a user.
abbrev pub identifier_unless : Option String → String → String
identifier_unless none identifier = identifier
identifier_unless (some user) identifier = ""

abbrev failure : Option Bool → Option VerifyError
failure none = some plugin_failed
failure (some b) = none

module _ {C : Type 0} where
  abbrev pub verifiable_of : Option (Plugin C) → Option (Verifiable C)
  verifiable_of none = none
  verifiable_of (some p) = p.verifiable

  abbrev report_needs : String → String → C → Option (Verifiable C) → Option VerifyError
  report_needs user action ctx none = none
  report_needs user action ctx (some v) = failure (v.needs_verification user action ctx)

  abbrev pub report_success :
      Option String → String → C → Option (Verifiable C) → Option VerifyError
  report_success none action ctx v = none
  report_success (some user) action ctx none = none
  report_success (some user) action ctx (some v) =
      if v.on_verification_success user action ctx then none else some plugin_failed

  -- UpdatePluginStatus. `verified_at` is the context with the time that NeedsVerification gets.
  unfoldable pub update_plugin_status :
      Env
      → Manager C
      → C
      → String
      → String
      → String
      → String
      → String
      → Store C
      → Option VerifyError × Store C
  update_plugin_status env mgr verified_at app user action plugin status st =
      let row : PluginStatus = record {
        id = "";
        app_id = app;
        user_id = some user;
        identifier = "";
        identifier_type = "";
        action = action;
        plugin = plugin;
        status = status;
        created_at = 0;
        updated_at = 0;
      } in
      if env.works 0
      then (
        if status == completed
            then report_needs user action verified_at (verifiable_of (mgr.get_plugin app plugin))
            else none,
        record st { statuses = save_status env row st.statuses },
      )
      else (some database_failed, st)

  -- The row that UpdatePluginStatusBySession saves: under the user, else under the identifier.
  abbrev pub session_status : VerificationSession C → String → String → PluginStatus
  session_status s plugin status = record {
    id = "";
    app_id = s.app_id;
    user_id = s.user_id;
    identifier = identifier_unless s.user_id s.identifier;
    identifier_type = identifier_unless s.user_id s.identifier_type;
    action = s.action;
    plugin = plugin;
    status = status;
    created_at = 0;
    updated_at = 0;
  }

  -- `UpdatePluginStatusBySession` with the session that GetByID gives.
  abbrev pub report_in :
      Env
      → Manager C
      → String
      → String
      → Option (VerificationSession C)
      → Store C
      → Option VerifyError × Store C
  report_in env mgr plugin status none st = (some session_not_found, st)
  report_in env mgr plugin status (some s) st =
      if ltb s.expired_at env.now
      then (some session_expired, st)
      else if env.works 1
      then (
        if status == completed
            then report_success s.user_id s.action s.context
                (verifiable_of (mgr.get_plugin s.app_id plugin))
            else none,
        record st { statuses = save_status env (session_status s plugin status) st.statuses },
      )
      else (some database_failed, st)

  -- UpdatePluginStatusBySession
  unfoldable pub update_plugin_status_by_session :
      Env → Manager C → String → String → String → Store C → Option VerifyError × Store C
  update_plugin_status_by_session env mgr id plugin status st =
      if env.works 0
      then report_in env mgr plugin status (get_session env id st.sessions) st
      else (some database_failed, st)
