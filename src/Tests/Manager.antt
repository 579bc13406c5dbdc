-- ===== src/Tests/Manager.antt =====
-- Tests of the plugin manager.
use lauth.Prelude.{String, ◌≡◌, ◌≢◌, refl, true, false, none, some, List, [], ◌∷◌}
use lauth.Prelude.Dict.{lookup, insert}
use lauth.Plugin.State.{is_valid_transition, set_state, store_state}
use lauth.Plugin.Base.{
  new_smart_plugin, PluginHooks, load, start, stop, unload, validate_config, change_state,
}
use lauth.Plugin.Manager.{
  Instance, ConfigRow, PluginManager, ConfigIo, get_config, save_config, create_plugin,
  load_and_start, load_plugin,
}
use lauth.Plugin.Management.{
  get_plugin, install_plugin, unload_plugin, uninstall_plugin, save_plugin_config,
}
use lauth.Plugin.Managed.{IsNamed}
use lauth.Plugin.Configured.{never_saved}
use lauth.Plugin.Removed.{IsRemoved, uninstall_plugin-IsRemoved}
use lauth.Plugin.Registry.{PluginDescriptor, register_all, register_plugin, register_all-IsNamed}

abbrev quiet : PluginHooks String
quiet = record { on_load = λ c. none; on_unload = none; on_start = none; on_stop = none }

abbrev totp : Instance String
totp = record {
  name = "totp";
  required = true;
  stage = "post_login";
  actions = "login" ∷ [];
  base = new_smart_plugin (some quiet) [];
  on_install = none;
  on_uninstall = none;
}

abbrev descriptors : List (PluginDescriptor String)
descriptors =
    record {
      name = "totp";
      version = "1";
      factory = some totp;
      made_version = "1";
      configures = true;
    }
    ∷ []

abbrev all_works : ConfigIo
all_works = record {
  get_ok = true;
  list_ok = true;
  save_ok = true;
  save_again_ok = true;
  delete_ok = true;
  indexed = true;
}

abbrev off : ConfigRow String
off = record {
  app_id = "app";
  name = "totp";
  config = "six digits";
  required = false;
  stage = "pre_login";
  actions = [];
  enabled = false;
}

abbrev fresh : PluginManager String
fresh = record { apps = []; configs = off ∷ []; registry = register_all descriptors [] }

fresh-IsNamed : IsNamed fresh
fresh-IsNamed = register_all-IsNamed descriptors fresh refl

-- With the index, the plugin is saved as enabled and runs, although the row is not enabled.
indexed_saves :
    (save_plugin_config all_works off fresh).1.configs
    ≡ record off { required = true; stage = "post_login"; actions = "login" ∷ []; enabled = true }
      ∷ []
unfolding save_plugin_config get_plugin get_config create_plugin register_all register_plugin lookup
    insert save_config load_plugin load_and_start load validate_config start change_state set_state
    is_valid_transition store_state
indexed_saves = refl

abbrev bare : ConfigIo
bare = record all_works { indexed = false }

never_saved_example :
    ((install_plugin bare "app" "totp" "six digits" fresh).0 ≢ none)
    × ((save_plugin_config bare off fresh).0 ≢ none)
never_saved_example = never_saved bare "app" "totp" "six digits" off fresh refl

abbrev on : PluginManager String
on = record fresh { configs = record off { enabled = true } ∷ [] }

uninstall_plugin-IsRemoved_example :
    IsRemoved "app" "totp" (uninstall_plugin all_works "app" "totp" on).1
    × (get_plugin all_works "app" "totp" (uninstall_plugin all_works "app" "totp" on).1
        ≡ (none, (uninstall_plugin all_works "app" "totp" on).1))
unfolding uninstall_plugin unload_plugin get_plugin get_config create_plugin register_all
    register_plugin lookup insert load_and_start load validate_config start stop unload change_state
    set_state is_valid_transition store_state
uninstall_plugin-IsRemoved_example =
    uninstall_plugin-IsRemoved all_works all_works "app" "totp" on refl
