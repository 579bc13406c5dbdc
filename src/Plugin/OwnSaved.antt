-- ===== src/Plugin/OwnSaved.antt =====
-- What internal/plugin/verification/user_config_manager.go reads after it has saved.
use lauth.Prelude.{
  String, ◌==◌, eq_refl, ◌≡◌, refl, inl, inr, true, ◌&&◌, Option, none, some, List, [], ◌∷◌,
  Bool-cases, arith, if◌then◌else◌,
}
use lauth.Prelude.Dict.{Dict, lookup, insert, lookup-insert}
use lauth.Plugin.UserConfig.{
  UserConfigRow, UserConfigIo, Outcome, returned, refused, panicked, get_user_config,
  save_user_config,
}
use lauth.Plugin.UserUpdate.{merge, or_empty}
use lauth.Plugin.OwnConfig.{
  OwnManager, all_own, own_found, get_own_config, save_own_config, update_own, update_own_config,
}

module _ {V : Type 0} where
  -- The map of a row that is found; none where there is no row.
  abbrev pub config_of : Option (UserConfigRow V) → Option (Option (Dict V))
  config_of none = none
  config_of (some r) = some r.config

  -- What a key has after updates to a map: the last update of the key, or else what it had.
  abbrev pub updated : String → Dict V → Option V → Option V
  updated k [] o = o
  updated k ((j, v) ∷ updates) o = updated k updates (if j == k then some v else o)

  lookup-merge :
      (k : String) (updates m : Dict V)
      → lookup k (merge updates m) ≡ updated k updates (lookup k m)
  lookup-merge k [] m = refl
  lookup-merge k ((j, v) ∷ updates) m =
      rw (lookup-merge k updates (insert j v m), lookup-insert k j v m) refl

  save_user_config-same :
      (row : UserConfigRow V) (rows : List (UserConfigRow V))
      → config_of (get_user_config row.app_id row.user_id row.plugin (save_user_config row rows))
        ≡ some row.config
  unfolding get_user_config save_user_config
  save_user_config-same row [] =
      simp (eq_refl row.app_id, eq_refl row.user_id, eq_refl row.plugin) refl
  save_user_config-same row (r ∷ rs) =
      elim (Bool-cases
        (r.app_id == row.app_id && (r.user_id == row.user_id && r.plugin == row.plugin))) [
          | inl e ↦ simp e refl
          | inr e ↦ simp e (save_user_config-same row rs)
        ]

  save_own_config-returned :
      (io : UserConfigIo) (m : OwnManager V) (user : String) (config : Dict V)
      (rows : List (UserConfigRow V))
      → (save_own_config io m user (some config) rows).0 ≡ returned
      → config_of (
          get_user_config m.app_id user m.plugin_name
            (save_own_config io m user (some config) rows).1)
        ≡ some (some config)
  unfolding save_own_config
  save_own_config-returned io m user config rows h =
      elim (Bool-cases (all_own (λ k. k.on_save config) m.handlers)) [
        | inr e ↦ absurd (ground (arith, h, e))
        | inl e ↦ elim (Bool-cases (io.write_ok m.plugin_name)) [
          | inr f ↦ absurd (ground (arith, h, e, f))
          | inl f ↦ simp (e, f) (save_user_config-same _ rows)
        ]
      ]

  update_own-returned :
      (io : UserConfigIo) (m : OwnManager V) (user : String) (updates : Dict V)
      (o : Outcome × Option (Dict V)) (rows : List (UserConfigRow V))
      → (update_own io m user updates o rows).0 ≡ returned
      → config_of
          (get_user_config m.app_id user m.plugin_name (update_own io m user updates o rows).1)
        ≡ some (some (merge updates (or_empty o.1)))
  update_own-returned io m user updates (refused, old) rows h = absurd (ground (arith, h))
  update_own-returned io m user updates (panicked, old) rows h = absurd (ground (arith, h))
  update_own-returned io m user updates (returned, old) rows h =
      elim (Bool-cases (all_own (λ k. k.on_update old (merge updates (or_empty old))) m.handlers)) [
        | inr e ↦ absurd (ground (arith, h, e))
        | inl e ↦ simp e (save_own_config-returned io m user _ rows (simp e at h))
      ]

  own_found-config :
      (m : OwnManager V) (config : Dict V) (r : Option (UserConfigRow V))
      → config_of r ≡ some (some config)
      → all_own (λ k. k.on_get (some config)) m.handlers ≡ true
      → own_found m r ≡ (returned, some config)
  own_found-config m config none h ok = absurd (ground (arith, h))
  own_found-config m config (some r) h ok = ground (arith, h, ok)

-- When UpdateConfig of a plugin's own configuration returns no error, also where there was no row,
-- GetConfig with a database that is read and with handlers that accept every map when it is read
-- gives a map in which each key has the value of its last update, and a key without an update what
-- it had in the map that GetConfig gave before, if anything.
pub update_own_config-get_own_config :
    {V : Type 0} (io io' : UserConfigIo) (m : OwnManager V) (user : String) (updates : Dict V)
    (rows : List (UserConfigRow V))
    → (update_own_config io m user updates rows).0 ≡ returned
    → io'.read_ok m.plugin_name ≡ true
    → ((c : Dict V) → all_own (λ h. h.on_get (some c)) m.handlers ≡ true)
    → (new : Dict V) × (get_own_config io' m user (update_own_config io m user updates rows).1
        ≡ (returned, some new))
      × ((k : String)
          → lookup k new
            ≡ updated k updates (lookup k (or_empty (get_own_config io m user rows).1)))
unfolding get_own_config update_own_config
update_own_config-get_own_config io io' m user updates rows done read accepted = (
  merge updates (or_empty (get_own_config io m user rows).1),
  simp read (
      own_found-config m _ _
        (update_own-returned io m user updates (get_own_config io m user rows) rows done)
        (accepted _)),
  λ k. lookup-merge k updates _,
)
