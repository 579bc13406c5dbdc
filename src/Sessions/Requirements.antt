-- ===== src/Sessions/Requirements.antt =====
-- GetRequiredPlugins of internal/service/verification_plugin.go: which plugins an action needs.
use lauth.Prelude.{
  String, ◌==◌, Bool, true, false, ◌||◌, Option, none, some, List, [], ◌∷◌, if◌then◌else◌,
}
use lauth.Sessions.Tables.{database_failed, plugin_failed, Answer, ok, err, pending}
use lauth.Sessions.Status.{Verifiable, Plugin, PluginConfig, Manager}

-- PluginRequirement
pub record Requirement : Type 0 where
  pub name : String
  pub required : Bool
  pub stage : String
  pub status : String

abbrev pub has_action : String → List String → Bool
has_action action [] = false
has_action action (a ∷ rest) = a == action || has_action action rest

abbrev pub cons_ok : Requirement → Answer (List Requirement) → Answer (List Requirement)
cons_ok r (ok rs) = ok (r ∷ rs)
cons_ok r (err e) = err e

-- What NeedsVerification answers for an optional plugin, and the requirements of the rest.
abbrev pub add_if_needed :
    Requirement → Option Bool → Answer (List Requirement) → Answer (List Requirement)
add_if_needed r none rest = err plugin_failed
add_if_needed r (some true) rest = cons_ok r rest
add_if_needed r (some false) rest = rest

module _ {C : Type 0} where
  abbrev needs : String → String → C → Option (Verifiable C) → Option Bool
  needs user action ctx none = some false
  needs user action ctx (some v) = v.needs_verification user action ctx

  -- checkPluginVerification
  unfoldable pub check_plugin_verification : Plugin C → String → String → C → Option Bool
  check_plugin_verification p user action ctx = needs user action ctx p.verifiable

  -- One round of the loop of GetRequiredPlugins, with the plugin that GetPlugin gives.
  abbrev pub add_requirement :
      String
      → String
      → C
      → String
      → Option (Plugin C)
      → Answer (List Requirement)
      → Answer (List Requirement)
  add_requirement user action ctx name none rest = rest
  add_requirement user action ctx name (some p) rest =
      let r : Requirement = record {
        name = name;
        required = p.required;
        stage = p.stage;
        status = pending;
      } in
      if has_action action p.actions
      then if p.required
        then cons_ok r rest
        else add_if_needed r (check_plugin_verification p user action ctx) rest
      else rest

  unfoldable pub requirements_of :
      Manager C → String → String → C → String → List PluginConfig → Answer (List Requirement)
  requirements_of mgr app action ctx user [] = ok []
  requirements_of mgr app action ctx user (c ∷ cs) =
      let rest = requirements_of mgr app action ctx user cs in
      let plugin = mgr.get_plugin app c.config_name in
      if c.enabled then add_requirement user action ctx c.config_name plugin rest else rest

  abbrev pub requirements_from :
      Manager C
      → String
      → String
      → C
      → String
      → List String
      → Option (List PluginConfig)
      → Answer (List Requirement)
  requirements_from mgr app action ctx user [] configs = ok []
  requirements_from mgr app action ctx user (p ∷ ps) none = err database_failed
  requirements_from mgr app action ctx user (p ∷ ps) (some configs) =
      requirements_of mgr app action ctx user configs

  -- GetRequiredPlugins
  unfoldable pub get_required_plugins :
      Manager C → String → String → C → String → Answer (List Requirement)
  get_required_plugins mgr app action ctx user =
      requirements_from mgr app action ctx user (mgr.list_plugins app) (mgr.get_plugin_configs app)
