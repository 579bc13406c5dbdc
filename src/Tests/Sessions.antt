-- ===== src/Tests/Sessions.antt =====
-- Tests of the verification sessions.
use lauth.Prelude.{
  ℕ, ◌<◌, String, ◌≡◌, refl, ◌==◌, not, ◌||◌, true, false, none, some, List, [], ◌∷◌, keep, arith,
}
use lauth.Prelude.Dict.{lookup, insert}
use lauth.Sessions.Tables.{
  VerificationSession, PluginStatus, Store, Env, ok, pending, completed, status_of, get_session,
}
use lauth.Sessions.Status.{Verifiable, Plugin, Manager}
use lauth.Sessions.Clearing.{clear_verification}
use lauth.Sessions.Requirements.{
  Requirement, get_required_plugins, requirements_of, check_plugin_verification,
}
use lauth.Sessions.Walk.{VerificationStatus}
use lauth.Sessions.Validation.{
  build_status_maps, validate, validate_single, validate_session, validate_plugin_status_by_session,
}
use lauth.Sessions.Satisfied.{Satisfied}
use lauth.Sessions.Verdict.{Verdict, validate_session-Verdict}
use lauth.Sessions.Rounds.{rounds, Serves}
use lauth.Sessions.Met.{IsNamed}
use lauth.Sessions.Progress.{rounds_completed}
use lauth.Sessions.Cleared.{clear_verification_statuses}

abbrev pub verifier : Verifiable String
verifier = record {
  needs_verification = λ user action ctx. some true;
  validate_verification = λ user action id. some false;
  on_verification_success = λ user action ctx. true;
}

abbrev pub plugin_named : String → Plugin String
plugin_named name = record {
  name = name;
  required = name == "totp";
  stage = "post_login";
  actions = "login" ∷ [];
  verifiable = some verifier;
}

abbrev pub manager : Manager String
manager = record {
  list_plugins = λ app. "email" ∷ "totp" ∷ [];
  get_plugin_configs = λ app. some (
      record { config_name = "email"; enabled = true }
      ∷ record { config_name = "totp"; enabled = true }
      ∷ []);
  get_plugin = λ app name. some (plugin_named name);
}

abbrev pub env_at : ℕ → Env
env_at now = record {
  now = now;
  works = λ k. true;
  uuid = λ k. "new";
  id_before = λ a b. true;
  listed = λ rows. rows;
}

abbrev session : VerificationSession String
session = record {
  id = "s";
  app_id = "app";
  user_id = some "u";
  identifier = "";
  identifier_type = "";
  action = "login";
  status = pending;
  context = "ip";
  created_at = 10;
  updated_at = 10;
  expired_at = 1810;
}

abbrev email_done : PluginStatus
email_done = record {
  id = "r";
  app_id = "app";
  user_id = some "u";
  identifier = "";
  identifier_type = "";
  action = "login";
  plugin = "email";
  status = completed;
  created_at = 11;
  updated_at = 11;
}

abbrev store : Store String
store = record { sessions = session ∷ []; statuses = email_done ∷ [] }

abbrev requirements : List Requirement
requirements =
    record { name = "email"; required = false; stage = "post_login"; status = pending }
    ∷ record { name = "totp"; required = true; stage = "post_login"; status = pending }
    ∷ []

validate_session-Verdict_example :
    Verdict
      (Satisfied manager session (email_done ∷ []))
      requirements
      (validate_session (env_at 20) manager session (email_done ∷ []))
unfolding get_required_plugins requirements_of check_plugin_verification validate_single validate
    build_status_maps lookup insert
validate_session-Verdict_example =
    validate_session-Verdict (env_at 20) manager session (email_done ∷ []) requirements refl
      (tt, (tt, tt))

manager-IsNamed : IsNamed manager "app"
manager-IsNamed name p e = ground arith

served : (now : ℕ) → now < 1810 → Serves "s" session (session ∷ []) (env_at now)
unfolding get_session
served now h = (refl, refl, ground arith, λ P rows. ((λ h. h, λ h. h), λ h. h))

rounds_completed_example :
    (a : VerificationStatus) × (validate_plugin_status_by_session
        (env_at 40)
        manager
        "s"
        (rounds (env_at 20 ∷ env_at 30 ∷ []) manager "s" store)
      ≡ ok a)
    × (a.completed_all ≡ true)
unfolding get_required_plugins requirements_of check_plugin_verification get_session keep
rounds_completed_example =
    rounds_completed manager "s" session requirements manager-IsNamed refl
      (env_at 20 ∷ env_at 30 ∷ []) (env_at 40) store
      (served 40 (omega arith), (served 20 (omega arith), (served 30 (omega arith), tt))) (refl, tt)
      (omega arith)

clear_verification_statuses_example :
    ((clear_verification (env_at 50) "app" "u" "login" store).0 ≡ none)
    × ((clear_verification (env_at 50) "app" "u" "login" store).1.statuses
        ≡ keep
            (λ r. not (status_of "app" "u" "login" r || status_of "app" pending "login" r))
            (email_done ∷ []))
clear_verification_statuses_example =
    clear_verification_statuses (env_at 50) (λ k. refl) "app" "u" "login" store
      λ P rows. ((λ h. h, λ h. h), λ h. h)
