-- ===== src/Plugin/Manager.antt =====
-- internal/plugin/manager.go over the table of internal/repository/plugin_config.go and the registry
-- of internal/plugin/registry.go. The plugins are those of internal/plugin/types/base.go.
use lauth.Prelude.{
  String, ◌==◌, Bool, true, not, ◌&&◌, Option, none, some, List, [], ◌∷◌, keep, if◌then◌else◌,
}
use lauth.Prelude.Dict.{Dict, lookup, insert, erase}
use lauth.Plugin.Base.{SmartPlugin, ErrorCode, load, start}

-- A plugin, by its metadata, its base, and what OnInstall and OnUninstall answer, where none is
-- no error.
pub record Instance (C : Type 0) : Type 0 where
  pub name : String
  pub required : Bool
  pub stage : String
  pub actions : List String
  pub base : SmartPlugin C
  pub on_install : Option String
  pub on_uninstall : Option String

-- A row of plugin_configs.
pub record ConfigRow (C : Type 0) : Type 0 where
  pub app_id : String
  pub name : String
  pub config : C
  pub required : Bool
  pub stage : String
  pub actions : List String
  pub enabled : Bool

-- The manager: the plugins in memory by application and name, the table, and the registry, which
-- has for each name the instance that the factory gives and Configure accepts, or none.
pub record PluginManager (C : Type 0) : Type 0 where
  pub apps : Dict (Dict (Instance C))
  pub configs : List (ConfigRow C)
  pub registry : Dict (Option (Instance C))

-- Which calls of the database in one operation succeed, and whether plugin_configs has a unique
-- index on application and name, which SaveConfig needs; the schema of the repository has none.
pub record ConfigIo : Type 0 where
  pub get_ok : Bool
  pub list_ok : Bool
  pub save_ok : Bool
  pub save_again_ok : Bool
  pub delete_ok : Bool
  pub indexed : Bool

-- PostgreSQL refuses an ON CONFLICT without a unique index on its columns.
abbrev pub can_save : ConfigIo → Bool
can_save io = io.save_ok && io.indexed

abbrev pub can_save_again : ConfigIo → Bool
can_save_again io = io.save_again_ok && io.indexed

-- Where Load, Start, Stop or Unload panics, the error that is answered stands for the panic.
pub data ManagerError : Type 0 where
  app_required name_empty plugin_exists plugin_missing not_registered : ManagerError
  load_failed start_failed stop_failed unload_failed hook_failed save_failed delete_failed :
      ManagerError
  list_failed : ManagerError

abbrev pub ManagerAnswer : Type 0 → Type 0
ManagerAnswer C = Option ManagerError × PluginManager C

module _ {C : Type 0} where
  abbrev pub is_config : String → String → ConfigRow C → Bool
  is_config app name r = r.app_id == app && r.name == name

  -- GetConfig
  unfoldable pub get_config : String → String → List (ConfigRow C) → Option (ConfigRow C)
  get_config app name [] = none
  get_config app name (r ∷ rs) = if is_config app name r then some r else get_config app name rs

  -- SaveConfig, where the table has the unique index: insert, or on a conflict of application and
  -- name update.
  unfoldable pub save_config : ConfigRow C → List (ConfigRow C) → List (ConfigRow C)
  save_config row [] = row ∷ []
  save_config row (r ∷ rs) =
      if is_config row.app_id row.name r then row ∷ rs else r ∷ save_config row rs

  -- DeleteConfig
  unfoldable pub delete_config : String → String → List (ConfigRow C) → List (ConfigRow C)
  delete_config app name rs = keep (λ r. not (is_config app name r)) rs

  -- ListConfigs
  unfoldable pub list_configs : String → List (ConfigRow C) → List (ConfigRow C)
  list_configs app rs = keep (λ r. r.app_id == app) rs

  abbrev pub or_empty : Option (Dict (Instance C)) → Dict (Instance C)
  or_empty none = []
  or_empty (some d) = d

  -- The plugins of an application that are in memory.
  abbrev pub plugins_of : String → PluginManager C → Dict (Instance C)
  plugins_of app m = or_empty (lookup app m.apps)

  abbrev pub in_memory : String → String → PluginManager C → Option (Instance C)
  in_memory app name m = lookup name (plugins_of app m)

  abbrev pub set_plugins : String → Dict (Instance C) → PluginManager C → PluginManager C
  set_plugins app d m = record m { apps = insert app d m.apps }

  abbrev pub put_plugin : String → String → Instance C → PluginManager C → PluginManager C
  put_plugin app name p m = set_plugins app (insert name p (plugins_of app m)) m

  abbrev pub drop_plugin : String → String → PluginManager C → PluginManager C
  drop_plugin app name m = set_plugins app (erase name (plugins_of app m)) m

  abbrev pub made : Option (Option (Instance C)) → Option (Instance C)
  made none = none
  made (some p) = p

  -- createPlugin
  unfoldable pub create_plugin : String → PluginManager C → Option (Instance C)
  create_plugin name m = if name == "" then none else made (lookup name m.registry)

  -- Load and Start: the plugin that runs, or which of the two failed.
  abbrev pub started :
      Instance C → Option ErrorCode × SmartPlugin C → Option ManagerError × Instance C
  started p (some e, b) = (some start_failed, record p { base = b })
  started p (none, b) = (none, record p { base = b })

  abbrev pub loaded :
      Instance C → Option ErrorCode × SmartPlugin C → Option ManagerError × Instance C
  loaded p (some e, b) = (some load_failed, record p { base = b })
  loaded p (none, b) = started p (start b)

  unfoldable pub load_and_start : C → Instance C → Option ManagerError × Instance C
  load_and_start c p = loaded p (load c p.base)

  -- The row that LoadPlugin saves.
  abbrev pub row_of : String → C → Instance C → ConfigRow C
  row_of app c p = record {
    app_id = app;
    name = p.name;
    config = c;
    required = p.required;
    stage = p.stage;
    actions = p.actions;
    enabled = true;
  }

  -- `LoadPlugin` from the plugin that runs on; `save_ok` is whether SaveConfig works.
  abbrev pub keep_loaded :
      Bool → String → C → Option ManagerError × Instance C → PluginManager C → ManagerAnswer C
  keep_loaded save_ok app c (some e, p) m = (some e, m)
  keep_loaded save_ok app c (none, p) m =
      if save_ok
      then (
        none,
        put_plugin app p.name p (record m { configs = save_config (row_of app c p) m.configs }),
      )
      else (some save_failed, m)

  abbrev pub load_absent :
      Bool → String → Instance C → C → Option (Instance C) → PluginManager C → ManagerAnswer C
  load_absent save_ok app p c (some q) m = (some plugin_exists, m)
  load_absent save_ok app p c none m = keep_loaded save_ok app c (load_and_start c p) m

  -- LoadPlugin, which makes the map of the application first.
  unfoldable pub load_plugin : Bool → String → Instance C → C → PluginManager C → ManagerAnswer C
  load_plugin save_ok app p c m =
      if app == ""
      then (some app_required, m)
      else if p.name == ""
      then (some name_empty, m)
      else load_absent save_ok app p c (in_memory app p.name m)
          (set_plugins app (plugins_of app m) m)
