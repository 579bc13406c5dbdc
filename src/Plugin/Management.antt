-- ===== src/Plugin/Management.antt =====
-- The operations of internal/plugin/manager.go that install, find, configure and remove plugins.
-- Every plugin is a SmartPlugin.
use lauth.Prelude.{
  String, ◌==◌, not, ◌||◌, Option, none, some, List, [], ◌∷◌, map, keep, if◌then◌else◌,
}
use lauth.Plugin.Base.{SmartPlugin, ErrorCode, stop, unload}
use lauth.Plugin.Manager.{
  Instance, ConfigRow, PluginManager, ConfigIo, ManagerError, ManagerAnswer, app_required,
  name_empty, plugin_missing, not_registered, stop_failed, unload_failed, hook_failed, save_failed,
  delete_failed, list_failed, can_save, can_save_again, get_config, save_config, delete_config,
  list_configs, in_memory, set_plugins, put_plugin, drop_plugin, create_plugin, load_and_start,
  load_plugin,
}

module _ {C : Type 0} where
  -- `UnloadPlugin` with what Unload of the plugin answers.
  abbrev pub unloaded :
      ConfigIo
      → String
      → String
      → Instance C
      → Option ErrorCode × SmartPlugin C
      → PluginManager C
      → ManagerAnswer C
  unloaded io app name p (some e, b) m =
      (some unload_failed, put_plugin app name (record p { base = b }) m)
  unloaded io app name p (none, b) m =
      if io.delete_ok
      then (none, drop_plugin app name (record m { configs = delete_config app name m.configs }))
      else (some delete_failed, put_plugin app name (record p { base = b }) m)

  abbrev pub unload_found :
      ConfigIo → String → String → Option (Instance C) → PluginManager C → ManagerAnswer C
  unload_found io app name none m = (some plugin_missing, m)
  unload_found io app name (some p) m = unloaded io app name p (unload p.base) m

  -- UnloadPlugin
  unfoldable pub unload_plugin : ConfigIo → String → String → PluginManager C → ManagerAnswer C
  unload_plugin io app name m =
      if app == ""
      then (some app_required, m)
      else if name == ""
      then (some name_empty, m)
      else unload_found io app name (in_memory app name m) m

  -- `GetPlugin` with the plugin that has been loaded from its row.
  abbrev pub keep_found :
      String
      → String
      → Option ManagerError × Instance C
      → PluginManager C
      → Option (Instance C) × PluginManager C
  keep_found app name (some e, p) m = (none, m)
  keep_found app name (none, p) m = (some p, put_plugin app name p m)

  abbrev pub load_made :
      String
      → String
      → C
      → Option (Instance C)
      → PluginManager C
      → Option (Instance C) × PluginManager C
  load_made app name c none m = (none, m)
  load_made app name c (some p) m = keep_found app name (load_and_start c p) m

  -- `GetPlugin` with the row of the table.
  abbrev pub from_row :
      String
      → String
      → Option (ConfigRow C)
      → PluginManager C
      → Option (Instance C) × PluginManager C
  from_row app name none m = (none, m)
  from_row app name (some r) m =
      if r.enabled then load_made app name r.config (create_plugin name m) m else (none, m)

  abbrev pub or_from_row :
      ConfigIo
      → String
      → String
      → Option (Instance C)
      → PluginManager C
      → Option (Instance C) × PluginManager C
  or_from_row io app name (some p) m = (some p, m)
  or_from_row io app name none m =
      from_row app name (if io.get_ok then get_config app name m.configs else none) m

  -- GetPlugin
  unfoldable pub get_plugin :
      ConfigIo → String → String → PluginManager C → Option (Instance C) × PluginManager C
  get_plugin io app name m =
      if app == "" || name == ""
      then (none, m)
      else or_from_row io app name (in_memory app name m) m

  -- `InstallPlugin` with what OnInstall of the plugin answers.
  abbrev pub install_hooked :
      ConfigIo → String → C → Instance C → Option String → PluginManager C → ManagerAnswer C
  install_hooked io app c p (some e) m = (some hook_failed, m)
  install_hooked io app c p none m = load_plugin (can_save io) app p c m

  -- `InstallPlugin` with the plugin that has been created.
  abbrev pub install_made :
      ConfigIo → String → C → Option (Instance C) → PluginManager C → ManagerAnswer C
  install_made io app c none m = (some not_registered, m)
  install_made io app c (some p) m = install_hooked io app c p p.on_install m

  -- InstallPlugin
  unfoldable pub install_plugin : ConfigIo → String → String → C → PluginManager C → ManagerAnswer C
  install_plugin io app name c m = install_made io app c (create_plugin name m) m

  -- `UninstallPlugin` with what Stop answers.
  abbrev pub uninstall_stopped :
      ConfigIo
      → String
      → String
      → Instance C
      → Option ErrorCode × SmartPlugin C
      → Option String
      → PluginManager C
      → ManagerAnswer C
  uninstall_stopped io app name p (some e, b) hook m =
      (some stop_failed, put_plugin app name (record p { base = b }) m)
  uninstall_stopped io app name p (none, b) (some e) m =
      (some hook_failed, put_plugin app name (record p { base = b }) m)
  uninstall_stopped io app name p (none, b) none m =
      unload_plugin io app name (put_plugin app name (record p { base = b }) m)

  abbrev pub uninstall_found :
      ConfigIo → String → String → Option (Instance C) × PluginManager C → ManagerAnswer C
  uninstall_found io app name (none, m) = unload_plugin io app name m
  uninstall_found io app name (some p, m) =
      uninstall_stopped io app name p (stop p.base) p.on_uninstall m

  -- UninstallPlugin
  unfoldable pub uninstall_plugin : ConfigIo → String → String → PluginManager C → ManagerAnswer C
  uninstall_plugin io app name m = uninstall_found io app name (get_plugin io app name m)

  -- `SavePluginConfig` with the new plugin.
  abbrev pub reload :
      ConfigIo → ConfigRow C → Option (Instance C) → PluginManager C → ManagerAnswer C
  reload io row none m = (some not_registered, m)
  reload io row (some p) m = load_plugin (can_save_again io) row.app_id p row.config m

  -- `SavePluginConfig` from the save on.
  abbrev pub save_and_reload : ConfigIo → ConfigRow C → PluginManager C → ManagerAnswer C
  save_and_reload io row m =
      if can_save io
      then reload io row (create_plugin row.name m)
          (record m { configs = save_config row m.configs })
      else (some save_failed, m)

  abbrev pub replace_unloaded :
      ConfigIo
      → ConfigRow C
      → Instance C
      → Option ErrorCode × SmartPlugin C
      → PluginManager C
      → ManagerAnswer C
  replace_unloaded io row p (some e, b) m =
      (some unload_failed, put_plugin row.app_id row.name (record p { base = b }) m)
  replace_unloaded io row p (none, b) m = save_and_reload io row (drop_plugin row.app_id row.name m)

  abbrev pub replace_stopped :
      ConfigIo
      → ConfigRow C
      → Instance C
      → Option ErrorCode × SmartPlugin C
      → PluginManager C
      → ManagerAnswer C
  replace_stopped io row p (some e, b) m =
      (some stop_failed, put_plugin row.app_id row.name (record p { base = b }) m)
  replace_stopped io row p (none, b) m = replace_unloaded io row p (unload b) m

  abbrev pub replace_found :
      ConfigIo → ConfigRow C → Option (Instance C) × PluginManager C → ManagerAnswer C
  replace_found io row (none, m) = save_and_reload io row m
  replace_found io row (some p, m) = replace_stopped io row p (stop p.base) m

  -- SavePluginConfig
  unfoldable pub save_plugin_config : ConfigIo → ConfigRow C → PluginManager C → ManagerAnswer C
  save_plugin_config io row m = replace_found io row (get_plugin io row.app_id row.name m)

  -- ListPlugins
  unfoldable pub list_plugins : ConfigIo → String → PluginManager C → List String
  list_plugins io app m =
      if app == "" || not io.list_ok
      then []
      else map (λ r. r.name) (keep (λ r. r.enabled) (list_configs app m.configs))

  -- The new map that each application with an enabled row gets in InitPlugins.
  abbrev pub reset_apps : List (ConfigRow C) → PluginManager C → PluginManager C
  reset_apps [] m = m
  reset_apps (r ∷ rs) m = reset_apps rs (set_plugins r.app_id [] m)

  -- The loop of InitPlugins; a plugin that fails is only logged.
  abbrev pub load_rows : List (ConfigRow C) → PluginManager C → PluginManager C
  load_rows [] m = m
  load_rows (r ∷ rs) m =
      load_rows rs (load_made r.app_id r.name r.config (create_plugin r.name m) m).1

  -- InitPlugins, which lists the rows of the application with an empty id.
  unfoldable pub init_plugins : ConfigIo → PluginManager C → ManagerAnswer C
  init_plugins io m =
      let rows = keep (λ r. r.enabled) (list_configs "" m.configs) in
      if io.list_ok then (none, load_rows rows (reset_apps rows m)) else (some list_failed, m)
