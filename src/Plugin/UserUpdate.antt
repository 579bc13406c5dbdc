-- ===== src/Plugin/UserUpdate.antt =====
-- `UpdateConfig` of internal/plugin/user/user_config_service.go.
use lauth.Prelude.{String, ◌==◌, not, Option, none, some, List, [], ◌∷◌, if◌then◌else◌}
use lauth.Prelude.Dict.{Dict, insert}
use lauth.Plugin.UserConfig.{
  ConfigValue, UserConfigRow, UserConfigIo, ConfigHandler, Outcome, returned, refused, panicked,
  get_user_config, save_user_config, all_update, or_default, convert_to_config_map, save_configs,
}

module _ {V : Type 0} where
  -- The loop that writes the updates into the map.
  abbrev pub merge : Dict V → Dict V → Dict V
  merge [] m = m
  merge ((k, v) ∷ updates) m = merge updates (insert k v m)

  abbrev pub or_empty : Option (Dict V) → Dict V
  or_empty none = []
  or_empty (some m) = m

  -- The old map that the handlers are given holds the map of the row, into which the updates have
  -- been written by then.
  abbrev pub old_config : String → Option (Dict V) → Dict V → Dict (Dict V)
  old_config plugin none merged = []
  old_config plugin (some m) merged = (plugin, merged) ∷ []

  -- `updatePluginConfig` with the row that is read; without a row, its config is read of nil.
  abbrev pub update_config_row :
      UserConfigIo
      → List (ConfigHandler V)
      → String
      → ConfigValue V
      → Option (UserConfigRow V)
      → List (UserConfigRow V)
      → Outcome × List (UserConfigRow V)
  update_config_row io hs plugin v none rows = (panicked, rows)
  update_config_row io hs plugin v (some r) rows =
      let merged = merge (convert_to_config_map v) (or_empty r.config) in
      if not (all_update hs (old_config plugin r.config merged) ((plugin, merged) ∷ []))
      then (refused, rows)
      else if io.write_ok plugin
      then (returned, save_user_config (record r { config = some merged }) rows)
      else (refused, rows)

  -- updatePluginConfig
  unfoldable pub update_plugin_config :
      UserConfigIo
      → List (ConfigHandler V)
      → String
      → String
      → String
      → ConfigValue V
      → List (UserConfigRow V)
      → Outcome × List (UserConfigRow V)
  update_plugin_config io hs app user plugin v rows =
      if io.read_ok plugin
      then update_config_row io hs plugin v (get_user_config app user plugin rows) rows
      else if io.cancelled
      then (refused, rows)
      else save_configs io hs user (some ((plugin, v) ∷ [])) rows

  -- One plugin of UpdateConfig; after an error no other follows.
  abbrev pub update_one :
      UserConfigIo
      → List (ConfigHandler V)
      → String
      → String
      → String
      → ConfigValue V
      → Outcome × List (UserConfigRow V)
      → Outcome × List (UserConfigRow V)
  update_one io hs app user plugin v (refused, rows) = (refused, rows)
  update_one io hs app user plugin v (panicked, rows) = (panicked, rows)
  update_one io hs app user plugin v (returned, rows) =
      if plugin == "" then (returned, rows) else update_plugin_config io hs app user plugin v rows

  abbrev pub update_all :
      UserConfigIo
      → List (ConfigHandler V)
      → String
      → String
      → Dict (ConfigValue V)
      → Outcome × List (UserConfigRow V)
      → Outcome × List (UserConfigRow V)
  update_all io hs app user [] s = s
  update_all io hs app user ((plugin, v) ∷ updates) s =
      update_all io hs app user updates (update_one io hs app user plugin v s)

  -- `UpdateConfig` with validateUpdateParams, which reads the application of the context.
  abbrev pub update_in :
      UserConfigIo
      → List (ConfigHandler V)
      → Option String
      → String
      → Dict (ConfigValue V)
      → List (UserConfigRow V)
      → Outcome × List (UserConfigRow V)
  update_in io hs none user updates rows = (panicked, rows)
  update_in io hs (some app) user updates rows =
      update_all io hs (or_default app) user updates (returned, rows)

  abbrev pub update_given :
      UserConfigIo
      → List (ConfigHandler V)
      → Option String
      → String
      → Option (Dict (ConfigValue V))
      → List (UserConfigRow V)
      → Outcome × List (UserConfigRow V)
  update_given io hs app user none rows = (refused, rows)
  update_given io hs app user (some []) rows = (returned, rows)
  update_given io hs app user (some (u ∷ updates)) rows =
      if io.cancelled then (refused, rows) else update_in io hs app user (u ∷ updates) rows

  -- UpdateConfig, in the order of the list, where a nil map is none.
  unfoldable pub update_configs :
      UserConfigIo
      → List (ConfigHandler V)
      → Option String
      → String
      → Option (Dict (ConfigValue V))
      → List (UserConfigRow V)
      → Outcome × List (UserConfigRow V)
  update_configs io hs app user updates rows =
      if user == "" then (refused, rows) else update_given io hs app user updates rows
