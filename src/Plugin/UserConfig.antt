-- ===== src/Plugin/UserConfig.antt =====
-- internal/plugin/user/user_config_service.go over the table of PluginUserConfigRepository in
-- internal/repository/plugin_config.go: what a user has configured for each plugin.
use lauth.Prelude.{
  String, ◌==◌, Bool, true, not, ◌&&◌, Option, none, some, List, [], ◌∷◌, if◌then◌else◌,
}
use lauth.Prelude.Dict.{Dict, insert}

-- A value of the map of configurations: a map, or anything else.
pub data ConfigValue (V : Type 0) : Type 0 where
  fields : Dict V → ConfigValue V
  other : V → ConfigValue V

-- PluginUserConfig; the column of the map may be null.
pub record UserConfigRow (V : Type 0) : Type 0 where
  pub app_id : String
  pub user_id : String
  pub plugin : String
  pub config : Option (Dict V)

-- Which reads and writes of the database succeed, by the plugin, and whether the context has been
-- cancelled.
pub record UserConfigIo : Type 0 where
  pub read_ok : String → Bool
  pub write_ok : String → Bool
  pub cancelled : Bool

-- ConfigHandler; a handler accepts or refuses, and changes no map that it is given.
pub record ConfigHandler (V : Type 0) : Type 0 where
  pub on_get : Dict (Dict V) → Bool
  pub on_save : Dict (ConfigValue V) → Bool
  pub on_update : Dict (Dict V) → Dict (Dict V) → Bool

-- An operation returns nil, returns an error, or panics.
pub data Outcome : Type 0 where
  returned refused panicked : Outcome

-- The application of the context, where an empty one is `default`.
abbrev pub or_default : String → String
or_default app = if app == "" then "default" else app

module _ {V : Type 0} where
  -- GetUserConfig
  unfoldable pub get_user_config :
      String → String → String → List (UserConfigRow V) → Option (UserConfigRow V)
  get_user_config app user plugin [] = none
  get_user_config app user plugin (r ∷ rs) =
      if r.app_id == app && (r.user_id == user && r.plugin == plugin)
      then some r
      else get_user_config app user plugin rs

  -- SaveUserConfig: a row with the same application, user and plugin gets the new map.
  unfoldable pub save_user_config :
      UserConfigRow V → List (UserConfigRow V) → List (UserConfigRow V)
  save_user_config row [] = row ∷ []
  save_user_config row (r ∷ rs) =
      if r.app_id == row.app_id && (r.user_id == row.user_id && r.plugin == row.plugin)
      then record r { config = row.config } ∷ rs
      else r ∷ save_user_config row rs

  -- The loops over the handlers.
  abbrev pub all_get : List (ConfigHandler V) → Dict (Dict V) → Bool
  all_get [] configs = true
  all_get (h ∷ hs) configs = h.on_get configs && all_get hs configs

  abbrev pub all_save : List (ConfigHandler V) → Dict (ConfigValue V) → Bool
  all_save [] configs = true
  all_save (h ∷ hs) configs = h.on_save configs && all_save hs configs

  -- callConfigHandlers
  abbrev pub all_update : List (ConfigHandler V) → Dict (Dict V) → Dict (Dict V) → Bool
  all_update [] old new = true
  all_update (h ∷ hs) old new = h.on_update old new && all_update hs old new

  abbrev pub add_config : String → Option (UserConfigRow V) → Dict (Dict V) → Dict (Dict V)
  add_config plugin none configs = configs
  add_config plugin (some r) configs = add_map plugin r.config configs
    where
      add_map : String → Option (Dict V) → Dict (Dict V) → Dict (Dict V)
      add_map plugin none configs = configs
      add_map plugin (some m) configs = insert plugin m configs

  -- The loop of GetConfig over the registered plugins; none is an error, of a cancelled context.
  abbrev pub read_configs :
      UserConfigIo
      → String
      → String
      → List String
      → List (UserConfigRow V)
      → Dict (Dict V)
      → Option (Dict (Dict V))
  read_configs io app user [] rows configs = some configs
  read_configs io app user (p ∷ ps) rows configs =
      if not (io.read_ok p) && io.cancelled
      then none
      else read_configs io app user ps rows
          (if io.read_ok p then add_config p (get_user_config app user p rows) configs else configs)

  abbrev pub after_get : List (ConfigHandler V) → Option (Dict (Dict V)) → Outcome × Dict (Dict V)
  after_get hs none = (refused, [])
  after_get hs (some configs) = if all_get hs configs then (returned, configs) else (refused, [])

  abbrev pub get_config_in :
      UserConfigIo
      → List (ConfigHandler V)
      → Option String
      → String
      → List String
      → List (UserConfigRow V)
      → Outcome × Dict (Dict V)
  get_config_in io hs none user plugins rows = (panicked, [])
  get_config_in io hs (some app) user plugins rows =
      after_get hs (read_configs io (or_default app) user plugins rows [])

  -- GetConfig, of the registered plugins; a context without an application is none.
  unfoldable pub get_configs :
      UserConfigIo
      → List (ConfigHandler V)
      → Option String
      → String
      → List String
      → List (UserConfigRow V)
      → Outcome × Dict (Dict V)
  get_configs io hs app user plugins rows =
      if user == "" then (refused, []) else get_config_in io hs app user plugins rows

  -- convertToConfigMap, with the key `value`; V is the type of any value.
  abbrev pub convert_to_config_map : ConfigValue V → Dict V
  convert_to_config_map (fields m) = m
  convert_to_config_map (other v) = ("value", v) ∷ []

  -- One plugin of SaveConfig; after an error no other follows.
  abbrev pub save_one :
      UserConfigIo
      → String
      → String
      → ConfigValue V
      → Outcome × List (UserConfigRow V)
      → Outcome × List (UserConfigRow V)
  save_one io user plugin v (refused, rows) = (refused, rows)
  save_one io user plugin v (panicked, rows) = (panicked, rows)
  save_one io user plugin v (returned, rows) =
      let row : UserConfigRow V = record {
        app_id = "default";
        user_id = user;
        plugin = plugin;
        config = some (convert_to_config_map v);
      } in
      if plugin == ""
      then (returned, rows)
      else if io.write_ok plugin
      then (returned, save_user_config row rows)
      else (refused, rows)

  -- The loop of SaveConfig, in the order of the list.
  abbrev pub save_all :
      UserConfigIo
      → String
      → Dict (ConfigValue V)
      → Outcome × List (UserConfigRow V)
      → Outcome × List (UserConfigRow V)
  save_all io user [] s = s
  save_all io user ((plugin, v) ∷ config) s = save_all io user config (save_one io user plugin v s)

  abbrev pub save_given :
      UserConfigIo
      → List (ConfigHandler V)
      → String
      → Option (Dict (ConfigValue V))
      → List (UserConfigRow V)
      → Outcome × List (UserConfigRow V)
  save_given io hs user none rows = (refused, rows)
  save_given io hs user (some []) rows = (returned, rows)
  save_given io hs user (some (c ∷ config)) rows =
      if io.cancelled
      then (refused, rows)
      else if not (all_save hs (c ∷ config))
      then (refused, rows)
      else save_all io user (c ∷ config) (returned, rows)

  -- SaveConfig, where a nil map is none.
  unfoldable pub save_configs :
      UserConfigIo
      → List (ConfigHandler V)
      → String
      → Option (Dict (ConfigValue V))
      → List (UserConfigRow V)
      → Outcome × List (UserConfigRow V)
  save_configs io hs user config rows =
      if user == "" then (refused, rows) else save_given io hs user config rows
