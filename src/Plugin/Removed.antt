-- ===== src/Plugin/Removed.antt =====
-- What UninstallPlugin and InitPlugins of internal/plugin/manager.go leave.
use lauth.Prelude.{
  String, ◌==◌, eq_iff, ◌≡◌, ◌≢◌, refl, inl, inr, true, ◌||◌, Option, none, some, List, [], ◌∷◌,
  keep, Bool-cases, text-cases, arith, All,
}
use lauth.Plugin.Base.{SmartPlugin, ErrorCode, stop, unload}
use lauth.Plugin.Manager.{
  Instance, ConfigRow, PluginManager, ConfigIo, is_config, get_config, delete_config, list_configs,
  in_memory, put_plugin,
}
use lauth.Plugin.Management.{
  unloaded, unload_found, unload_plugin, get_plugin, uninstall_stopped, uninstall_found,
  uninstall_plugin, init_plugins,
}
use lauth.Plugin.Managed.{in_memory-drop_plugin}

module _ {C : Type 0} where
  -- After a removal there is neither a plugin in memory nor a row in the table.
  abbrev pub IsRemoved : String → String → PluginManager C → Type 0
  IsRemoved app name m = (in_memory app name m ≡ none) × (get_config app name m.configs ≡ none)

  get_config-delete_config :
      (app name : String) (rs : List (ConfigRow C))
      → get_config app name (delete_config app name rs) ≡ none
  unfolding get_config delete_config keep
  get_config-delete_config app name [] = refl
  get_config-delete_config app name (r ∷ rs) = elim (Bool-cases (is_config app name r)) [
    | inl e ↦ simp e (get_config-delete_config app name rs)
    | inr e ↦ simp e (get_config-delete_config app name rs)
  ]

  unloaded-IsRemoved :
      (io : ConfigIo) (app name : String) (p : Instance C) (x : Option ErrorCode × SmartPlugin C)
      (m : PluginManager C)
      → (unloaded io app name p x m).0 ≡ none
      → IsRemoved app name (unloaded io app name p x m).1
  unloaded-IsRemoved io app name p (some e, b) m = λ h. cc h
  unloaded-IsRemoved io app name p (none, b) m = elim (Bool-cases io.delete_ok) [
    | inl e ↦ simp e (λ h. (
      in_memory-drop_plugin app name (record m { configs = delete_config app name m.configs }),
      get_config-delete_config app name m.configs,
    ))
    | inr e ↦ simp e (λ h. cc h)
  ]

  unload_found-IsRemoved :
      (io : ConfigIo) (app name : String) (o : Option (Instance C)) (m : PluginManager C)
      → (unload_found io app name o m).0 ≡ none
      → IsRemoved app name (unload_found io app name o m).1
  unload_found-IsRemoved io app name none m h = cc h
  unload_found-IsRemoved io app name (some p) m h =
      unloaded-IsRemoved io app name p (unload p.base) m h

  unload_plugin-IsRemoved :
      (io : ConfigIo) (app name : String) (m : PluginManager C)
      → (unload_plugin io app name m).0 ≡ none
      → IsRemoved app name (unload_plugin io app name m).1
  unfolding unload_plugin
  unload_plugin-IsRemoved io app name m = elim (text-cases app "") [
    | inl e ↦ simp e (λ h. cc h)
    | inr (_, e) ↦ elim (text-cases name "") [
      | inl f ↦ simp (e, f) (λ h. cc h)
      | inr (_, f) ↦ simp (e, f) (unload_found-IsRemoved io app name _ m)
    ]
  ]

  uninstall_stopped-IsRemoved :
      (io : ConfigIo) (app name : String) (p : Instance C) (x : Option ErrorCode × SmartPlugin C)
      (hook : Option String) (m : PluginManager C)
      → (uninstall_stopped io app name p x hook m).0 ≡ none
      → IsRemoved app name (uninstall_stopped io app name p x hook m).1
  uninstall_stopped-IsRemoved io app name p (some e, b) hook m h = cc h
  uninstall_stopped-IsRemoved io app name p (none, b) (some e) m h = cc h
  uninstall_stopped-IsRemoved io app name p (none, b) none m h =
      unload_plugin-IsRemoved io app name (put_plugin app name (record p { base = b }) m) h

  uninstall_found-IsRemoved :
      (io : ConfigIo) (app name : String) (x : Option (Instance C) × PluginManager C)
      → (uninstall_found io app name x).0 ≡ none
      → IsRemoved app name (uninstall_found io app name x).1
  uninstall_found-IsRemoved io app name (none, m) h = unload_plugin-IsRemoved io app name m h
  uninstall_found-IsRemoved io app name (some p, m) h =
      uninstall_stopped-IsRemoved io app name p (stop p.base) p.on_uninstall m h

  IsRemoved-get_plugin :
      (io : ConfigIo) (app name : String) (m : PluginManager C)
      → IsRemoved app name m
      → get_plugin io app name m ≡ (none, m)
  unfolding get_plugin
  IsRemoved-get_plugin io app name m (gone, no_row) = elim (Bool-cases (app == "" || name == "")) [
    | inl e ↦ simp e
    | inr e ↦ elim (Bool-cases io.get_ok) [
      | inl f ↦ simp (e, gone, f, no_row)
      | inr f ↦ simp (e, gone, f)
    ]
  ]

  -- After an UninstallPlugin that answers no error the plugin is gone: it is not in memory, it has
  -- no row, and GetPlugin does not find it and loads nothing.
  pub uninstall_plugin-IsRemoved :
      (io later : ConfigIo) (app name : String) (m : PluginManager C)
      → (uninstall_plugin io app name m).0 ≡ none
      → let m' = (uninstall_plugin io app name m).1 in
        IsRemoved app name m' × (get_plugin later app name m' ≡ (none, m'))
  unfolding uninstall_plugin
  uninstall_plugin-IsRemoved io later app name m h =
      let removed = uninstall_found-IsRemoved io app name (get_plugin io app name m) h in
      (removed, IsRemoved-get_plugin later app name _ removed)

  list_configs-none :
      (app : String) (rs : List (ConfigRow C))
      → All (λ r. r.app_id ≢ app) rs
      → list_configs app rs ≡ []
  unfolding list_configs keep
  list_configs-none app [] h = refl
  list_configs-none app (r ∷ rs) h =
      ground (arith, eq_iff r.app_id app, h.0, list_configs-none app rs h.1)

  -- InitPlugins loads nothing and changes nothing, where no row of the table has an empty
  -- application, which LoadPlugin refuses.
  pub init_plugins-unchanged :
      (io : ConfigIo) (m : PluginManager C)
      → io.list_ok ≡ true
      → All (λ r. r.app_id ≢ "") m.configs
      → init_plugins io m ≡ (none, m)
  unfolding init_plugins keep
  init_plugins-unchanged io m works named = simp (works, list_configs-none "" m.configs named)
