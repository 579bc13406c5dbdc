-- ===== src/Plugin/UserSaved.antt =====
-- Where internal/plugin/user/user_config_service.go saves what a user configures.
use lauth.Prelude.{
  String, ◌==◌, eq_iff, ◌≡◌, ◌≢◌, refl, ap, ◌∙◌, inl, inr, true, false, not, ◌&&◌, Option, none,
  some, List, [], ◌∷◌, if◌then◌else◌, Bool-cases, text-cases, arith,
}
use lauth.Prelude.Dict.{Dict}
use lauth.Plugin.UserConfig.{
  ConfigValue, UserConfigRow, UserConfigIo, ConfigHandler, Outcome, returned, refused, panicked,
  get_user_config, save_user_config, save_one, save_all, save_given, save_configs, read_configs,
  get_configs,
}
use lauth.Plugin.UserUpdate.{update_plugin_config, update_configs}

module _ {V : Type 0} (app : String) (elsewhere : app ≢ "default") where
  save_user_config-other :
      (row : UserConfigRow V) (user plugin : String) (rows : List (UserConfigRow V))
      → row.app_id ≡ "default"
      → get_user_config app user plugin (save_user_config row rows)
        ≡ get_user_config app user plugin rows
  unfolding get_user_config save_user_config
  save_user_config-other row user plugin [] e = ground (arith, eq_iff row.app_id app, e, elsewhere)
  save_user_config-other row user plugin (r ∷ rs) e = ground (
    arith,
    eq_iff row.app_id app,
    eq_iff r.app_id app,
    eq_iff r.app_id row.app_id,
    e,
    elsewhere,
    save_user_config-other row user plugin rs e,
  )

  save_one-other :
      (io : UserConfigIo) (user name user' plugin : String) (v : ConfigValue V)
      (s : Outcome × List (UserConfigRow V))
      → get_user_config app user' plugin (save_one io user name v s).1
        ≡ get_user_config app user' plugin s.1
  save_one-other io user name user' plugin v (refused, rows) = refl
  save_one-other io user name user' plugin v (panicked, rows) = refl
  save_one-other io user name user' plugin v (returned, rows) = elim (Bool-cases (name == "")) [
    | inl e ↦ simp e refl
    | inr e ↦ elim (Bool-cases (io.write_ok name)) [
      | inl f ↦ simp (e, f) (save_user_config-other _ user' plugin rows refl)
      | inr f ↦ simp (e, f) refl
    ]
  ]

  save_all-other :
      (io : UserConfigIo) (user user' plugin : String) (config : Dict (ConfigValue V))
      (s : Outcome × List (UserConfigRow V))
      → get_user_config app user' plugin (save_all io user config s).1
        ≡ get_user_config app user' plugin s.1
  save_all-other io user user' plugin [] s = refl
  save_all-other io user user' plugin ((name, v) ∷ config) s =
      save_all-other io user user' plugin config (save_one io user name v s)
      ∙ save_one-other io user name user' plugin v s

  save_given-other :
      (io : UserConfigIo) (hs : List (ConfigHandler V)) (user user' plugin : String)
      (config : Option (Dict (ConfigValue V))) (rows : List (UserConfigRow V))
      → get_user_config app user' plugin (save_given io hs user config rows).1
        ≡ get_user_config app user' plugin rows
  save_given-other io hs user user' plugin none rows = refl
  save_given-other io hs user user' plugin (some []) rows = refl
  save_given-other io hs user user' plugin (some (c ∷ config)) rows =
      ground (arith, save_all-other io user user' plugin (c ∷ config) (returned, rows))

  save_configs-other :
      (io : UserConfigIo) (hs : List (ConfigHandler V)) (user user' plugin : String)
      (config : Option (Dict (ConfigValue V))) (rows : List (UserConfigRow V))
      → get_user_config app user' plugin (save_configs io hs user config rows).1
        ≡ get_user_config app user' plugin rows
  unfolding save_configs
  save_configs-other io hs user user' plugin config rows =
      ground (arith, save_given-other io hs user user' plugin config rows)

  read_configs-same :
      (io : UserConfigIo) (user : String) (plugins : List String)
      (rows rows' : List (UserConfigRow V)) (found : Dict (Dict V))
      → ((plugin : String)
          → get_user_config app user plugin rows' ≡ get_user_config app user plugin rows)
      → read_configs io app user plugins rows' found ≡ read_configs io app user plugins rows found
  read_configs-same io user [] rows rows' found same = refl
  read_configs-same io user (p ∷ ps) rows rows' found same = rw (same p) (
      ap (λ rest. if not (io.read_ok p) && io.cancelled then none else rest)
        (read_configs-same io user ps rows rows' _ same))

  after_get-same :
      (io : UserConfigIo) (hs : List (ConfigHandler V)) (user : String) (plugins : List String)
      (rows rows' : List (UserConfigRow V))
      → app ≢ ""
      → ((plugin : String)
          → get_user_config app user plugin rows' ≡ get_user_config app user plugin rows)
      → get_configs io hs (some app) user plugins rows'
        ≡ get_configs io hs (some app) user plugins rows
  unfolding get_configs
  after_get-same io hs user plugins rows rows' named same = elim (text-cases app "") [
    | inl e ↦ absurd (named e)
    | inr e ↦ simp e.1 (rw (read_configs-same io user plugins rows rows' [] same) refl)
  ]

  update_configs-missing :
      (io : UserConfigIo) (hs : List (ConfigHandler V)) (user plugin : String) (v : ConfigValue V)
      (rows : List (UserConfigRow V))
      → app ≢ ""
      → user ≢ ""
      → plugin ≢ ""
      → io.cancelled ≡ false
      → io.read_ok plugin ≡ true
      → get_user_config app user plugin rows ≡ none
      → update_configs io hs (some app) user (some ((plugin, v) ∷ [])) rows ≡ (panicked, rows)
  unfolding update_configs update_plugin_config
  update_configs-missing io hs user plugin v rows named is_user is_plugin live read missing =
      let a : (app == "") ≡ false = ground (arith, eq_iff app "", named) in
      let u : (user == "") ≡ false = ground (arith, eq_iff user "", is_user) in
      let p : (plugin == "") ≡ false = ground (arith, eq_iff plugin "", is_plugin) in
      simp (a, u, p, live, read, missing) refl

-- In an application other than `default`, GetConfig shows the same before and after any SaveConfig;
-- and where the user has no row of a plugin there, UpdateConfig of that plugin with a context that
-- is not cancelled panics when the row is read, also after any SaveConfig, and changes no row.
pub saved_never_seen :
    {V : Type 0} (app : String) (io io' : UserConfigIo) (hs : List (ConfigHandler V))
    (user user' plugin : String) (config : Option (Dict (ConfigValue V))) (v : ConfigValue V)
    (plugins : List String) (rows : List (UserConfigRow V))
    → app ≢ "default"
    → app ≢ ""
    → user' ≢ ""
    → plugin ≢ ""
    → io'.cancelled ≡ false
    → io'.read_ok plugin ≡ true
    → get_user_config app user' plugin rows ≡ none
    → let saved = (save_configs io hs user config rows).1 in
      (get_configs io' hs (some app) user' plugins saved
        ≡ get_configs io' hs (some app) user' plugins rows)
      × (update_configs io' hs (some app) user' (some ((plugin, v) ∷ [])) saved ≡ (panicked, saved))
saved_never_seen app io io' hs user user' plugin config v plugins rows elsewhere named is_user
      is_plugin live read missing =
    let same = λ (p : String). save_configs-other app elsewhere io hs user user' p config rows in
    (
      after_get-same app elsewhere io' hs user' plugins rows _ named same,
      update_configs-missing app elsewhere io' hs user' plugin v _ named is_user is_plugin live read
          (same plugin ∙ missing),
    )
