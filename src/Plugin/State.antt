-- ===== src/Plugin/State.antt =====
-- internal/plugin/types/state.go
use lauth.Prelude.{String, ◌==◌, Bool, true, false, Option, none, some, if◌then◌else◌}

-- PluginState
pub data PluginState : Type 0 where
  state_uninitialized state_initialized state_running state_stopped state_error : PluginState

-- A Go error, by its concrete type and its text.
pub record GoError : Type 0 where
  pub kind : String
  pub text : String

-- StateManager; each field is atomic by itself.
pub record StateManager : Type 0 where
  pub state : PluginState
  pub last_error : Option GoError

-- NewStateManager
abbrev pub new_state_manager : StateManager
new_state_manager = record { state = state_uninitialized; last_error = none }

-- isValidTransition
unfoldable pub is_valid_transition : PluginState → PluginState → Bool
is_valid_transition state_uninitialized state_initialized = true
is_valid_transition state_uninitialized _ = false
is_valid_transition state_initialized state_running = true
is_valid_transition state_initialized state_error = true
is_valid_transition state_initialized _ = false
is_valid_transition state_running state_stopped = true
is_valid_transition state_running state_error = true
is_valid_transition state_running _ = false
is_valid_transition state_stopped state_running = true
is_valid_transition state_stopped state_uninitialized = true
is_valid_transition state_stopped state_error = true
is_valid_transition state_stopped _ = false
is_valid_transition state_error state_uninitialized = true
is_valid_transition state_error _ = false

-- The store of `SetState`, after the check.
unfoldable pub store_state : PluginState → StateManager → StateManager
store_state to sm = record sm { state = to }

-- SetState; false is its error.
unfoldable pub set_state : PluginState → StateManager → Bool × StateManager
set_state to sm = if is_valid_transition sm.state to then (true, store_state to sm) else (false, sm)

-- atomic.Value takes an error of the concrete type of the one that it holds.
abbrev pub is_storable : GoError → Option GoError → Bool
is_storable e none = true
is_storable e (some f) = e.kind == f.kind

-- SetError; false is the panic of Store for an error of another concrete type.
unfoldable pub set_error : GoError → StateManager → Bool × StateManager
set_error e sm =
    if is_storable e sm.last_error
    then (true, record { state = state_error; last_error = some e })
    else (false, sm)

-- GetError
abbrev pub get_error : StateManager → Option GoError
get_error sm = sm.last_error
