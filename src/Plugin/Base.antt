-- ===== src/Plugin/Base.antt =====
-- internal/plugin/types/base.go: loading, starting, stopping and unloading a plugin. The
-- hooks and validators are what they answer when they are called.
use lauth.Prelude.{ℕ, Bool, not, Option, none, some, List, [], ◌∷◌, eqb, if◌then◌else◌}
use lauth.Plugin.State.{
  PluginState, state_uninitialized, state_initialized, state_running, state_stopped, state_error,
  GoError, StateManager, new_state_manager, set_state, set_error,
}

-- The codes of the errors that the operations return; `panicked` is no error but a panic.
pub data ErrorCode : Type 0 where
  err_invalid_state err_config_invalid err_execute_failed panicked : ErrorCode

-- PluginHooks, for configurations of the type C.
pub record PluginHooks (C : Type 0) : Type 0 where
  pub on_load : C → Option GoError
  pub on_unload : Option GoError
  pub on_start : Option GoError
  pub on_stop : Option GoError

-- SmartPluginBase, as far as these operations use it.
pub record SmartPlugin (C : Type 0) : Type 0 where
  pub state_manager : StateManager
  pub config : Option C
  pub hooks : Option (PluginHooks C)
  pub validators : List (C → Option GoError)

-- The number that a state is in Go.
abbrev pub state_number : PluginState → ℕ
state_number state_uninitialized = 0
state_number state_initialized = 1
state_number state_running = 2
state_number state_stopped = 3
state_number state_error = 4

abbrev pub same_state : PluginState → PluginState → Bool
same_state a b = eqb (state_number a) (state_number b)

abbrev first_error : Option GoError → Option GoError → Option GoError
first_error (some e) later = some e
first_error none later = later

module _ {C : Type 0} where
  -- NewSmartPlugin with hooks and validators.
  abbrev pub new_smart_plugin : Option (PluginHooks C) → List (C → Option GoError) → SmartPlugin C
  new_smart_plugin hooks validators = record {
    state_manager = new_state_manager;
    config = none;
    hooks = hooks;
    validators = validators;
  }

  -- The loop over the validators, ValidateConfig: the first error.
  unfoldable pub validate_config : List (C → Option GoError) → C → Option GoError
  validate_config [] c = none
  validate_config (v ∷ vs) c = first_error (v c) (validate_config vs c)

  -- A hook, where there are hooks.
  abbrev pub call_hook : (PluginHooks C → Option GoError) → Option (PluginHooks C) → Option GoError
  call_hook hook none = none
  call_hook hook (some h) = hook h

  -- SetState as the last step of an operation.
  unfoldable pub change_state : PluginState → SmartPlugin C → Option ErrorCode × SmartPlugin C
  change_state to p =
      let (ok, sm) = set_state to p.state_manager in
      (if ok then none else some err_invalid_state, record p { state_manager = sm })

  -- SetError, and the return of an error with the code.
  unfoldable pub fail_with : ErrorCode → GoError → SmartPlugin C → Option ErrorCode × SmartPlugin C
  fail_with code e p =
      let (stored, sm) = set_error e p.state_manager in
      (some (if stored then code else panicked), record p { state_manager = sm })

  -- What follows a hook: its error is kept, else the state changes.
  abbrev pub after_hook :
      PluginState → Option GoError → SmartPlugin C → Option ErrorCode × SmartPlugin C
  after_hook to (some e) p = fail_with err_execute_failed e p
  after_hook to none p = change_state to p

  -- `Load` from the validators' answer on.
  abbrev pub load_valid : C → Option GoError → SmartPlugin C → Option ErrorCode × SmartPlugin C
  load_valid c (some e) p = fail_with err_config_invalid e p
  load_valid c none p =
      after_hook state_initialized (call_hook (λ h. h.on_load c) p.hooks)
        (record p { config = some c })

  -- Load
  unfoldable pub load : C → SmartPlugin C → Option ErrorCode × SmartPlugin C
  load c p =
      if not (same_state p.state_manager.state state_uninitialized)
      then (some err_invalid_state, p)
      else load_valid c (validate_config p.validators c) p

  -- `Unload` from the hook's answer on.
  abbrev pub unload_hooked : Option GoError → SmartPlugin C → Option ErrorCode × SmartPlugin C
  unload_hooked (some e) p = fail_with err_execute_failed e p
  unload_hooked none p = change_state state_uninitialized (record p { config = none })

  -- Unload
  unfoldable pub unload : SmartPlugin C → Option ErrorCode × SmartPlugin C
  unload p =
      if same_state p.state_manager.state state_uninitialized
      then (some err_invalid_state, p)
      else unload_hooked (call_hook (λ h. h.on_unload) p.hooks) p

  -- Start
  unfoldable pub start : SmartPlugin C → Option ErrorCode × SmartPlugin C
  start p =
      if not (same_state p.state_manager.state state_initialized)
      then (some err_invalid_state, p)
      else after_hook state_running (call_hook (λ h. h.on_start) p.hooks) p

  -- Stop
  unfoldable pub stop : SmartPlugin C → Option ErrorCode × SmartPlugin C
  stop p =
      if not (same_state p.state_manager.state state_running)
      then (some err_invalid_state, p)
      else after_hook state_stopped (call_hook (λ h. h.on_stop) p.hooks) p

  -- `UpdateConfig` with the validators' answer.
  abbrev pub update_valid : C → Option GoError → SmartPlugin C → Option ErrorCode × SmartPlugin C
  update_valid c (some e) p = (some err_config_invalid, p)
  update_valid c none p = (none, record p { config = some c })

  -- UpdateConfig
  unfoldable pub update_config : C → SmartPlugin C → Option ErrorCode × SmartPlugin C
  update_config c p = update_valid c (validate_config p.validators c) p
