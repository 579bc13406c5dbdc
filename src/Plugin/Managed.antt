-- ===== src/Plugin/Managed.antt =====
-- The plugins in memory of internal/plugin/manager.go.
use lauth.Prelude.{String, eq_refl, ◌≡◌, none, some}
use lauth.Prelude.Dict.{lookup-insert, lookup-erase}
use lauth.Plugin.Manager.{Instance, PluginManager, in_memory, drop_plugin, create_plugin}

module _ {C : Type 0} where
  pub in_memory-drop_plugin :
      (app name : String) (m : PluginManager C) → in_memory app name (drop_plugin app name m) ≡ none
  in_memory-drop_plugin app name m = simp (lookup-insert, lookup-erase, eq_refl app, eq_refl name)

  -- The registry gives under a name a plugin of that name, as Register checks.
  abbrev pub IsNamed : PluginManager C → Type 0
  IsNamed m = (name : String) (p : Instance C) → create_plugin name m ≡ some p → p.name ≡ name
