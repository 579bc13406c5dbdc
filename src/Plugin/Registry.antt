-- ===== src/Plugin/Registry.antt =====
-- internal/plugin/registry.go: the registry from which internal/plugin/manager.go makes plugins.
use lauth.Prelude.{
  String, ◌==◌, eq_refl, ◌≡◌, sym, ◌∙◌, inl, inr, Bool, true, false, not, Option, none, some, List,
  [], ◌∷◌, if◌then◌else◌, Bool-cases, text-cases,
}
use lauth.Prelude.Dict.{Dict, lookup, insert, erase, lookup-insert}
use lauth.Plugin.Manager.{Instance, PluginManager, made, create_plugin}
use lauth.Plugin.Managed.{IsNamed}

-- PluginDescriptor: its name and version, what its factory makes, where none is nil, the version in
-- the metadata of that, and whether Configure accepts it later.
pub record PluginDescriptor (C : Type 0) : Type 0 where
  pub name : String
  pub version : String
  pub factory : Option (Instance C)
  pub made_version : String
  pub configures : Bool

pub data RegistryError : Type 0 where
  empty_name already_registered nil_plugin name_mismatch version_mismatch not_found : RegistryError

module _ {C : Type 0} where
  -- The end of `Register`, with the plugin that the factory makes.
  abbrev pub register_made :
      PluginDescriptor C
      → Option (Instance C)
      → Dict (Option (Instance C))
      → Option RegistryError × Dict (Option (Instance C))
  register_made d none r = (some nil_plugin, r)
  register_made d (some p) r =
      if not (p.name == d.name)
      then (some name_mismatch, r)
      else if not (d.made_version == d.version)
      then (some version_mismatch, r)
      else (none, insert d.name (if d.configures then some p else none) r)

  abbrev pub register_absent :
      PluginDescriptor C
      → Option (Option (Instance C))
      → Dict (Option (Instance C))
      → Option RegistryError × Dict (Option (Instance C))
  register_absent d (some p) r = (some already_registered, r)
  register_absent d none r = register_made d d.factory r

  -- Register
  unfoldable pub register_plugin :
      PluginDescriptor C
      → Dict (Option (Instance C))
      → Option RegistryError × Dict (Option (Instance C))
  register_plugin d r =
      if d.name == "" then (some empty_name, r) else register_absent d (lookup d.name r) r

  abbrev unregister_found :
      String
      → Option (Option (Instance C))
      → Dict (Option (Instance C))
      → Option RegistryError × Dict (Option (Instance C))
  unregister_found name none r = (some not_found, r)
  unregister_found name (some p) r = (none, erase name r)

  -- Unregister
  unfoldable pub unregister_plugin :
      String → Dict (Option (Instance C)) → Option RegistryError × Dict (Option (Instance C))
  unregister_plugin name r =
      if name == "" then (some empty_name, r) else unregister_found name (lookup name r) r

  -- The loop of NewManager; a plugin that is refused is only logged.
  unfoldable pub register_all :
      List (PluginDescriptor C) → Dict (Option (Instance C)) → Dict (Option (Instance C))
  register_all [] r = r
  register_all (d ∷ ds) r = register_all ds (register_plugin d r).1

  -- Every plugin that the registry makes has the name that it is registered under.
  abbrev pub Names : Dict (Option (Instance C)) → Type 0
  Names r = (name : String) (p : Instance C) → lookup name r ≡ some (some p) → p.name ≡ name

  made-name :
      (c : Bool) (p q : Instance C)
      → some (if c then some p else none) ≡ some (some q)
      → p.name ≡ q.name
  made-name true p q h = cc h
  made-name false p q h = cc h

  insert-Names :
      (c : Bool) (name : String) (p : Instance C) (r : Dict (Option (Instance C)))
      → p.name ≡ name
      → Names r
      → Names (insert name (if c then some p else none) r)
  insert-Names c name p r e h other q found =
      let step = lookup-insert other name (if c then some p else none) r in
      elim (text-cases name other) [
        | inl same ↦
            sym (made-name c p q (simp (same, eq_refl other) at (sym step ∙ found))) ∙ e ∙ same
        | inr (_, differs) ↦ h other q (simp differs at (sym step ∙ found))
      ]

  register_made-Names :
      (d : PluginDescriptor C) (o : Option (Instance C)) (r : Dict (Option (Instance C)))
      → Names r
      → Names (register_made d o r).1
  register_made-Names d none r h = h
  register_made-Names d (some p) r h = elim (text-cases p.name d.name) [
    | inr (ne, e) ↦ simp e h
    | inl e ↦
        let same : (p.name == d.name) ≡ true = rw e (eq_refl d.name) in
        elim (Bool-cases (d.made_version == d.version)) [
          | inr f ↦ simp (same, f) h
          | inl f ↦ simp (same, f) (insert-Names d.configures d.name p r e h)
        ]
  ]

  register_plugin-Names :
      (d : PluginDescriptor C) (r : Dict (Option (Instance C)))
      → Names r
      → Names (register_plugin d r).1
  unfolding register_plugin
  register_plugin-Names d r h = elim (Bool-cases (d.name == "")) [
    | inl e ↦ simp e h
    | inr e ↦ simp e (by_found (lookup d.name r))
  ]
    where
      by_found : (o : Option (Option (Instance C))) → Names (register_absent d o r).1
      by_found (some p) = h
      by_found none = register_made-Names d d.factory r h

  register_all-Names :
      (ds : List (PluginDescriptor C)) (r : Dict (Option (Instance C)))
      → Names r
      → Names (register_all ds r)
  unfolding register_all
  register_all-Names [] r h = h
  register_all-Names (d ∷ ds) r h = register_all-Names ds _ (register_plugin-Names d r h)

  made-some :
      (o : Option (Option (Instance C))) (p : Instance C) → made o ≡ some p → o ≡ some (some p)
  made-some none p h = cc h
  made-some (some none) p h = cc h
  made-some (some (some q)) p h = cc h

  -- A manager with the registry that NewManager fills makes, under every name, a plugin of that
  -- name, whatever is registered.
  pub register_all-IsNamed :
      (ds : List (PluginDescriptor C)) (m : PluginManager C)
      → m.registry ≡ register_all ds []
      → IsNamed m
  unfolding create_plugin lookup
  register_all-IsNamed ds m filled name p = elim (Bool-cases (name == "")) [
    | inl e ↦ simp e (λ h. cc h)
    | inr e ↦
        simp (e, filled)
          (λ h. register_all-Names ds [] (λ other q found. cc found) name p (made-some _ p h))
  ]
