-- ===== src/Plugin/Lifecycle.antt =====
-- What the calls of internal/plugin/types/state.go can do to the state of a plugin.
use lauth.Prelude.{◌≡◌, refl, ◌⊎◌, inl, inr, true}
use lauth.Plugin.State.{
  PluginState, state_uninitialized, state_initialized, state_running, state_stopped, state_error,
  StateManager, is_valid_transition, store_state, set_state, set_error, is_storable, GoError,
}

-- One call that changes the state.
pub data Step : StateManager → StateManager → Type 0 where
  set :
      (to : PluginState) (sm : StateManager)
      → is_valid_transition sm.state to ≡ true
      → Step sm (set_state to sm).1
  fail :
      (e : GoError) (sm : StateManager)
      → is_storable e sm.last_error ≡ true
      → Step sm (set_error e sm).1

-- Calls one after the other.
pub data Steps : StateManager → StateManager → Type 0 where
  done : (sm : StateManager) → Steps sm sm
  step : {a b c : StateManager} → Step a b → Steps b c → Steps a c

pub Steps-trans : {a b c : StateManager} → Steps a b → Steps b c → Steps a c
Steps-trans (done sm) later = later
Steps-trans (step s rest) later = step s (Steps-trans rest later)

-- A plugin that is live has been set up and has not been torn down.
abbrev pub IsLive : PluginState → Type 0
IsLive state_uninitialized = ⊥
IsLive state_initialized = Unit
IsLive state_running = Unit
IsLive state_stopped = Unit
IsLive state_error = ⊥

-- Some call on the way left the state initialized.
abbrev pub Initializes : {a b : StateManager} → Steps a b → Type 0
Initializes (done sm) = ⊥
Initializes (step {a} {b} {c} s rest) = (b.state ≡ state_initialized) ⊎ Initializes rest

enters :
    (from to : PluginState)
    → is_valid_transition from to ≡ true
    → ¬ IsLive from
    → (to ≡ state_initialized) ⊎ ¬ IsLive to
unfolding is_valid_transition
enters state_uninitialized state_uninitialized h dead = inr (λ h. h)
enters state_uninitialized state_initialized h dead = inl refl
enters state_uninitialized state_running h dead = inl (cc)
enters state_uninitialized state_stopped h dead = inl (cc)
enters state_uninitialized state_error h dead = inr (λ h. h)
enters state_error state_uninitialized h dead = inr (λ h. h)
enters state_error state_initialized h dead = inl refl
enters state_error state_running h dead = inl (cc)
enters state_error state_stopped h dead = inl (cc)
enters state_error state_error h dead = inr (λ h. h)
enters state_initialized to h dead = absurd (dead tt)
enters state_running to h dead = absurd (dead tt)
enters state_stopped to h dead = absurd (dead tt)

state-set_state :
    (to : PluginState) (sm : StateManager)
    → is_valid_transition sm.state to ≡ true
    → (set_state to sm).1.state ≡ to
unfolding set_state store_state
state-set_state to sm h = rw h

state-set_error :
    (e : GoError) (sm : StateManager)
    → is_storable e sm.last_error ≡ true
    → (set_error e sm).1.state ≡ state_error
unfolding set_error
state-set_error e sm h = rw h

Step-enters :
    {a b : StateManager}
    → Step a b
    → ¬ IsLive a.state
    → (b.state ≡ state_initialized) ⊎ ¬ IsLive b.state
Step-enters (set to sm h) dead = rw (state-set_state to sm h) (enters sm.state to h dead)
Step-enters (fail e sm h) dead = inr (rw (state-set_error e sm h) (λ k. k))

-- Whatever calls are made, a plugin that was not live and is live afterwards, initialized, running
-- or stopped, has been initialized on the way.
pub live_was_initialized :
    {a b : StateManager} (calls : Steps a b) → ¬ IsLive a.state → IsLive b.state → Initializes calls
live_was_initialized (done sm) dead live = absurd (dead live)
live_was_initialized (step s rest) dead live = elim (Step-enters s dead) [
  | inl e ↦ inl e
  | inr d ↦ inr (live_was_initialized rest d live)
]
