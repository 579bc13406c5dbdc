-- ===== src/Tests/UserConfig.antt =====
-- Tests of internal/plugin/user/user_config_service.go.
use lauth.Prelude.{String, ◌≡◌, refl, true, false, Option, some, List, [], ◌∷◌, differ}
use lauth.Prelude.Dict.{Dict, lookup, insert}
use lauth.Plugin.UserConfig.{
  ConfigValue, fields, other, UserConfigRow, UserConfigIo, ConfigHandler, returned, panicked,
  get_user_config, save_user_config, get_configs, save_configs,
}
use lauth.Plugin.UserUpdate.{or_empty, update_configs, update_plugin_config}
use lauth.Plugin.OwnConfig.{OwnManager, get_own_config, save_own_config, update_own_config}
use lauth.Plugin.OwnSaved.{updated, update_own_config-get_own_config}
use lauth.Plugin.UserSaved.{saved_never_seen}

abbrev io : UserConfigIo
io = record { read_ok = λ p. true; write_ok = λ p. true; cancelled = false }

abbrev no_rows : List (UserConfigRow String)
no_rows = []

abbrev handlers : List (ConfigHandler String)
handlers = record { on_get = λ c. true; on_save = λ c. true; on_update = λ o n. true } ∷ []

abbrev config : Option (Dict (ConfigValue String))
config = some (("totp", other "on") ∷ [])

abbrev saved : List (UserConfigRow String)
saved = (save_configs io handlers "u" config no_rows).1

default_shows :
    get_configs io handlers (some "") "u" ("totp" ∷ []) saved
    ≡ (returned, ("totp", ("value", "on") ∷ []) ∷ [])
unfolding get_configs save_configs get_user_config save_user_config insert
default_shows = refl

default_updates :
    (update_configs io handlers
      (some "default")
      "u"
      (some (("totp", fields (("digits", "6") ∷ [])) ∷ []))
      saved).0
    ≡ returned
unfolding update_configs update_plugin_config save_configs get_user_config save_user_config insert
default_updates = refl

saved_never_seen_example :
    (get_configs io handlers (some "shop") "u" ("totp" ∷ []) saved
      ≡ get_configs io handlers (some "shop") "u" ("totp" ∷ []) no_rows)
    × (update_configs io handlers (some "shop") "u" (some (("totp", other "off") ∷ [])) saved
        ≡ (panicked, saved))
unfolding get_user_config
saved_never_seen_example =
    saved_never_seen "shop" io io handlers "u" "u" "totp" config (other "off") ("totp" ∷ []) no_rows
      (differ "shop" "default" refl) (differ "shop" "" refl) (differ "u" "" refl)
      (differ "totp" "" refl) refl refl refl

abbrev own : OwnManager String
own = record {
  handlers = record { on_get = λ c. true; on_save = λ c. true; on_update = λ o n. true } ∷ [];
  app_id = "shop";
  plugin_name = "totp";
}

abbrev stored : List (UserConfigRow String)
stored =
    record {
      app_id = "shop";
      user_id = "u";
      plugin = "totp";
      config = some (("issuer", "shop") ∷ ("digits", "8") ∷ []);
    }
    ∷ []

abbrev digits : Dict String
digits = ("digits", "6") ∷ []

last_update_stands :
    (updated "digits" digits (some "8") ≡ some "6")
    × (updated "issuer" digits (some "shop") ≡ some "shop")
last_update_stands = (refl, refl)

update_own_config-get_own_config_example :
    (new : Dict String) × (get_own_config io own "u" (update_own_config io own "u" digits stored).1
      ≡ (returned, some new))
    × ((k : String)
        → lookup k new
          ≡ updated k digits (lookup k (or_empty (get_own_config io own "u" stored).1)))
unfolding get_own_config update_own_config save_own_config get_user_config save_user_config insert
update_own_config-get_own_config_example =
    update_own_config-get_own_config io io own "u" digits stored refl refl (λ c. refl)
