-- ===== src/Plugin/OwnConfig.antt =====
-- internal/plugin/verification/user_config_manager.go: what a user has configured for one plugin,
-- as the plugin itself reads and writes it; and the rest of the service for all plugins.
use lauth.Prelude.{
  String, Bool, true, false, not, Option, none, some, List, [], ◌∷◌, ◌++◌, if◌then◌else◌,
}
use lauth.Prelude.Dict.{Dict}
use lauth.Plugin.UserConfig.{
  UserConfigRow, UserConfigIo, ConfigHandler, Outcome, returned, refused, get_user_config,
  save_user_config,
}
use lauth.Plugin.UserUpdate.{merge, or_empty}

-- A handler of one plugin's map; it accepts or refuses, and changes no map that it is given.
pub record OwnHandler (V : Type 0) : Type 0 where
  pub on_get : Option (Dict V) → Bool
  pub on_save : Dict V → Bool
  pub on_update : Option (Dict V) → Dict V → Bool

-- DefaultUserConfigManager
pub record OwnManager (V : Type 0) : Type 0 where
  pub handlers : List (OwnHandler V)
  pub app_id : String
  pub plugin_name : String

module _ {V : Type 0} where
  -- RegisterHandler of both; a nil handler, which the service for all plugins drops, is none.
  unfoldable pub register_handler :
      Option (ConfigHandler V) → List (ConfigHandler V) → List (ConfigHandler V)
  register_handler none hs = hs
  register_handler (some h) hs = hs ++ h ∷ []

  unfoldable pub register_own_handler : OwnHandler V → OwnManager V → OwnManager V
  register_own_handler h m = record m { handlers = m.handlers ++ h ∷ [] }

  -- SetAppID
  unfoldable pub set_app_id : String → OwnManager V → OwnManager V
  set_app_id app m = record m { app_id = app }

  abbrev pub all_own : (OwnHandler V → Bool) → List (OwnHandler V) → Bool
  all_own accepts [] = true
  all_own accepts (h ∷ hs) = if accepts h then all_own accepts hs else false

  abbrev pub own_found : OwnManager V → Option (UserConfigRow V) → Outcome × Option (Dict V)
  own_found m none = (returned, some [])
  own_found m (some r) =
      if all_own (λ h. h.on_get r.config) m.handlers then (returned, r.config) else (refused, none)

  -- GetConfig, where a nil map is none.
  unfoldable pub get_own_config :
      UserConfigIo → OwnManager V → String → List (UserConfigRow V) → Outcome × Option (Dict V)
  get_own_config io m user rows =
      if io.read_ok m.plugin_name
      then own_found m (get_user_config m.app_id user m.plugin_name rows)
      else (refused, none)

  -- SaveConfig with ValidateConfig.
  unfoldable pub save_own_config :
      UserConfigIo
      → OwnManager V
      → String
      → Option (Dict V)
      → List (UserConfigRow V)
      → Outcome × List (UserConfigRow V)
  save_own_config io m user none rows = (refused, rows)
  save_own_config io m user (some config) rows =
      let row : UserConfigRow V = record {
        app_id = m.app_id;
        user_id = user;
        plugin = m.plugin_name;
        config = some config;
      } in
      if not (all_own (λ h. h.on_save config) m.handlers)
      then (refused, rows)
      else if io.write_ok m.plugin_name
      then (returned, save_user_config row rows)
      else (refused, rows)

  abbrev pub update_own :
      UserConfigIo
      → OwnManager V
      → String
      → Dict V
      → Outcome × Option (Dict V)
      → List (UserConfigRow V)
      → Outcome × List (UserConfigRow V)
  update_own io m user updates (returned, old) rows =
      let new = merge updates (or_empty old) in
      if all_own (λ h. h.on_update old new) m.handlers
      then save_own_config io m user (some new) rows
      else (refused, rows)
  update_own io m user updates (o, old) rows = (o, rows)

  -- UpdateConfig
  unfoldable pub update_own_config :
      UserConfigIo
      → OwnManager V
      → String
      → Dict V
      → List (UserConfigRow V)
      → Outcome × List (UserConfigRow V)
  update_own_config io m user updates rows =
      update_own io m user updates (get_own_config io m user rows) rows
