-- ===== src/Plugin/Configured.antt =====
-- What internal/plugin/manager.go can save with the schema of internal/model/plugin.go.
use lauth.Prelude.{String, ◌==◌, ◌≡◌, ◌≢◌, inl, inr, false, Option, none, some, Bool-cases, arith}
use lauth.Plugin.Base.{SmartPlugin, ErrorCode, stop, unload}
use lauth.Plugin.Manager.{
  Instance, ConfigRow, PluginManager, ConfigIo, ManagerError, can_save, create_plugin,
  load_and_start, keep_loaded, load_absent, load_plugin,
}
use lauth.Plugin.Management.{
  get_plugin, install_hooked, install_made, install_plugin, save_and_reload, replace_unloaded,
  replace_stopped, replace_found, save_plugin_config,
}

cannot_save : (io : ConfigIo) → io.indexed ≡ false → can_save io ≡ false
cannot_save io bare = ground (arith, bare)

module _ {C : Type 0} where
  keep_loaded-none :
      (app : String) (c : C) (x : Option ManagerError × Instance C) (m : PluginManager C)
      → (keep_loaded false app c x m).0 ≢ none
  keep_loaded-none app c (some e, p) m h = cc h
  keep_loaded-none app c (none, p) m h = cc h

  load_absent-none :
      (app : String) (p : Instance C) (c : C) (o : Option (Instance C)) (m : PluginManager C)
      → (load_absent false app p c o m).0 ≢ none
  load_absent-none app p c (some q) m h = cc h
  load_absent-none app p c none m h = keep_loaded-none app c (load_and_start c p) m h

  load_plugin-none :
      (app : String) (p : Instance C) (c : C) (m : PluginManager C)
      → (load_plugin false app p c m).0 ≢ none
  unfolding load_plugin
  load_plugin-none app p c m = elim (Bool-cases (app == "")) [
    | inl e ↦ simp e (λ h. cc h)
    | inr e ↦ elim (Bool-cases (p.name == "")) [
      | inl f ↦ simp (e, f) (λ h. cc h)
      | inr f ↦ simp (e, f) (λ h. load_absent-none app p c _ _ h)
    ]
  ]

  install_hooked-none :
      (io : ConfigIo) (app : String) (c : C) (p : Instance C) (o : Option String)
      (m : PluginManager C)
      → io.indexed ≡ false
      → (install_hooked io app c p o m).0 ≢ none
  install_hooked-none io app c p (some e) m bare h = cc h
  install_hooked-none io app c p none m bare h =
      load_plugin-none app p c m (simp (cannot_save io bare) at h)

  install_made-none :
      (io : ConfigIo) (app : String) (c : C) (o : Option (Instance C)) (m : PluginManager C)
      → io.indexed ≡ false
      → (install_made io app c o m).0 ≢ none
  install_made-none io app c none m bare h = cc h
  install_made-none io app c (some p) m bare h =
      install_hooked-none io app c p p.on_install m bare h

  save_and_reload-none :
      (io : ConfigIo) (row : ConfigRow C) (m : PluginManager C)
      → io.indexed ≡ false
      → (save_and_reload io row m).0 ≢ none
  save_and_reload-none io row m bare = simp (cannot_save io bare) (λ h. cc h)

  replace_unloaded-none :
      (io : ConfigIo) (row : ConfigRow C) (p : Instance C) (x : Option ErrorCode × SmartPlugin C)
      (m : PluginManager C)
      → io.indexed ≡ false
      → (replace_unloaded io row p x m).0 ≢ none
  replace_unloaded-none io row p (some e, b) m bare h = cc h
  replace_unloaded-none io row p (none, b) m bare h = save_and_reload-none io row _ bare h

  replace_stopped-none :
      (io : ConfigIo) (row : ConfigRow C) (p : Instance C) (x : Option ErrorCode × SmartPlugin C)
      (m : PluginManager C)
      → io.indexed ≡ false
      → (replace_stopped io row p x m).0 ≢ none
  replace_stopped-none io row p (some e, b) m bare h = cc h
  replace_stopped-none io row p (none, b) m bare h =
      replace_unloaded-none io row p (unload b) m bare h

  replace_found-none :
      (io : ConfigIo) (row : ConfigRow C) (x : Option (Instance C) × PluginManager C)
      → io.indexed ≡ false
      → (replace_found io row x).0 ≢ none
  replace_found-none io row (none, m) bare h = save_and_reload-none io row m bare h
  replace_found-none io row (some p, m) bare h =
      replace_stopped-none io row p (stop p.base) m bare h

  -- With the table as its model declares it, without a unique index on application and name, no
  -- call of InstallPlugin or SavePluginConfig succeeds, whatever is in memory, in the table and in
  -- the registry, and even where every other call of the database works.
  pub never_saved :
      (io : ConfigIo) (app name : String) (c : C) (row : ConfigRow C) (m : PluginManager C)
      → io.indexed ≡ false
      → ((install_plugin io app name c m).0 ≢ none) × ((save_plugin_config io row m).0 ≢ none)
  unfolding install_plugin save_plugin_config
  never_saved io app name c row m bare = (
    install_made-none io app c (create_plugin name m) m bare,
    replace_found-none io row (get_plugin io row.app_id row.name m) bare,
  )
