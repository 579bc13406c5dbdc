-- ===== src/Tests/Plugin.antt =====
-- Tests of internal/plugin/types.
use lauth.Prelude.{String, ◌≡◌, refl, none, some, List, [], ◌∷◌, true}
use lauth.Plugin.State.{
  state_initialized, state_running, StateManager, new_state_manager, set_state, store_state,
  is_valid_transition,
}
use lauth.Plugin.Lifecycle.{set, Steps, done, step}
use lauth.Plugin.Base.{PluginHooks, SmartPlugin, new_smart_plugin}
use lauth.Plugin.Loading.{Call, load_call, unload_call, start_call, stop_call, update_call}
use lauth.Plugin.Execute.{Middleware, ExecuteHooks, execute, run_before, run_on_error}
use lauth.Prelude.{◌==◌, Any, All}
use lauth.Prelude.Int.{pos, ◌<ℤ◌}
use lauth.Prelude.Dict.{lookup, insert}
use lauth.Plugin.Exemption.{
  ExemptionResult, failed, matched, ExemptionRule, insert_rule, add_rule, run_rules,
  check_exemption,
}
use lauth.Plugin.Exempted.{Passes, check_exemption-grants}
use lauth.Plugin.Balance.{sum_of, opens, closes, execute-Balanced}

abbrev initialized : StateManager
initialized = record { state = state_initialized; last_error = none }

-- SetState to initialized, then to running.
set_twice :
    Steps new_state_manager
      (set_state state_running (set_state state_initialized new_state_manager).1).1
unfolding set_state is_valid_transition store_state
set_twice =
    step (set state_initialized new_state_manager refl)
      (step (set state_running (set_state state_initialized new_state_manager).1 refl) (done _))

abbrev hooks : PluginHooks String
hooks = record {
  on_load = λ c. none;
  on_unload = none;
  on_start = none;
  on_stop = some (record { kind = "*net.OpError"; text = "busy" });
}

abbrev working : PluginHooks String
working = record { on_load = λ c. none; on_unload = none; on_start = none; on_stop = none }

abbrev plugin : SmartPlugin String
plugin = new_smart_plugin (some hooks) ((λ c. none) ∷ [])

abbrev good_plugin : SmartPlugin String
good_plugin = new_smart_plugin (some working) ((λ c. none) ∷ [])

abbrev life : List (Call String)
life = load_call "smtp" ∷ start_call ∷ update_call "imap" ∷ stop_call ∷ unload_call ∷ []

abbrev quiet : Middleware
quiet = record { before = none; after = some "late"; on_error = λ e. none }

abbrev broken : Middleware
broken = record { before = some "limit"; after = none; on_error = λ e. some e }

abbrev run_once : ExecuteHooks
run_once = record { on_execute = none; on_execute_complete = λ e. none }

execute-Balanced_example :
    let events = (execute true (some run_once) (quiet ∷ broken ∷ []) state_running).0 in
    sum_of (opens 0) events ≡ sum_of (closes 0) events
execute-Balanced_example =
    execute-Balanced true (some run_once) (quiet ∷ broken ∷ []) state_running 0

-- Both are closed, the last one first, when the second Before fails.
execute_stops :
    sum_of (closes 1) (execute true (some run_once) (quiet ∷ broken ∷ []) state_running).0 ≡ 1
unfolding execute run_before run_on_error
execute_stops = refl

abbrev trusted : ExemptionRule String
trusted = record {
  rule_type = "ip";
  priority = pos 9;
  match = λ ip. matched (record { exempt = ip == "10.0.0.1"; reason = "trusted" });
}

abbrev strict : ExemptionRule String
strict = record { rule_type = "ip"; priority = pos 5; match = λ ip. failed "strict" }

abbrev granted : ExemptionResult
granted = record { exempt = true; reason = "trusted" }

check_exemption-grants_example :
    Any
      (λ r.
        (r.rule_type ≡ "ip")
        × (r.match "10.0.0.1" ≡ matched granted)
        × All
            (λ s. s.rule_type ≡ "ip" → r.priority <ℤ s.priority → Passes "10.0.0.1" s)
            (strict ∷ trusted ∷ []))
      (strict ∷ trusted ∷ [])
unfolding check_exemption add_rule insert_rule run_rules lookup insert
check_exemption-grants_example =
    check_exemption-grants "ip" "10.0.0.1" (strict ∷ trusted ∷ []) granted refl refl
