-- ===== src/Plugin/Loading.antt =====
-- What the operations of internal/plugin/types/base.go do to the state and the configuration.
use lauth.Prelude.{
  ℕ, zero, suc, inl, inr, Bool, true, false, Option, none, some, List, [], ◌∷◌, if◌then◌else◌,
  Bool-cases,
}
use lauth.Plugin.State.{
  PluginState, state_uninitialized, state_initialized, state_running, state_stopped, state_error,
  StateManager, GoError, is_storable, is_valid_transition, set_state, set_error,
}
use lauth.Plugin.Lifecycle.{set, fail, Steps, done, step, Steps-trans}
use lauth.Plugin.Base.{
  ErrorCode, SmartPlugin, call_hook, change_state, fail_with, after_hook, load_valid, load,
  unload_hooked, unload, start, stop, update_valid, update_config,
}

abbrev of_number : ℕ → PluginState
of_number zero = state_uninitialized
of_number (suc zero) = state_initialized
of_number (suc (suc zero)) = state_running
of_number (suc (suc (suc zero))) = state_stopped
of_number _ = state_error

-- A call of a plugin's operations.
pub data Call (C : Type 0) : Type 0 where
  load_call : C → Call C
  unload_call start_call stop_call : Call C
  update_call : C → Call C

module _ {C : Type 0} where
  change_state-Steps :
      (to : PluginState) (p : SmartPlugin C)
      → Steps p.state_manager (change_state to p).1.state_manager
  unfolding change_state set_state
  change_state-Steps to p = elim (Bool-cases (is_valid_transition p.state_manager.state to)) [
    | inl e ↦ step (set to p.state_manager e) (done _)
    | inr e ↦ simp e (done p.state_manager)
  ]

  fail_with-Steps :
      (code : ErrorCode) (e : GoError) (p : SmartPlugin C)
      → Steps p.state_manager (fail_with code e p).1.state_manager
  unfolding fail_with set_error
  fail_with-Steps code e p = elim (Bool-cases (is_storable e p.state_manager.last_error)) [
    | inl h ↦ step (fail e p.state_manager h) (done _)
    | inr h ↦ simp h (done p.state_manager)
  ]

  after_hook-Steps :
      (to : PluginState) (answer : Option GoError) (p : SmartPlugin C)
      → Steps p.state_manager (after_hook to answer p).1.state_manager
  after_hook-Steps to (some e) p = fail_with-Steps _ e p
  after_hook-Steps to none p = change_state-Steps to p

  load_valid-Steps :
      (c : C) (answer : Option GoError) (p : SmartPlugin C)
      → Steps p.state_manager (load_valid c answer p).1.state_manager
  load_valid-Steps c (some e) p = fail_with-Steps _ e p
  load_valid-Steps c none p =
      after_hook-Steps state_initialized (call_hook (λ h. h.on_load c) p.hooks)
        (record p { config = some c })

  unload_hooked-Steps :
      (answer : Option GoError) (p : SmartPlugin C)
      → Steps p.state_manager (unload_hooked answer p).1.state_manager
  unload_hooked-Steps (some e) p = fail_with-Steps _ e p
  unload_hooked-Steps none p = change_state-Steps state_uninitialized (record p { config = none })

  update_valid-Steps :
      (c : C) (answer : Option GoError) (p : SmartPlugin C)
      → Steps p.state_manager (update_valid c answer p).1.state_manager
  update_valid-Steps c (some e) p = done p.state_manager
  update_valid-Steps c none p = done p.state_manager

  abbrev pub call : Call C → SmartPlugin C → Option ErrorCode × SmartPlugin C
  call (load_call c) p = load c p
  call unload_call p = unload p
  call start_call p = start p
  call stop_call p = stop p
  call (update_call c) p = update_config c p

  guarded :
      (b : Bool) (a : StateManager) (x y : Option ErrorCode × SmartPlugin C)
      → Steps a x.1.state_manager
      → Steps a y.1.state_manager
      → Steps a (if b then x else y).1.state_manager
  guarded true a x y hx hy = hx
  guarded false a x y hx hy = hy

  -- Every operation of a plugin, on every branch, changes the state by valid transitions of the
  -- state machine or by keeping an error.
  pub call-Steps :
      (c : Call C) (p : SmartPlugin C) → Steps p.state_manager (call c p).1.state_manager
  unfolding load unload start stop update_config
  call-Steps (load_call c) p = guarded _ _ _ _ (done _) (load_valid-Steps c _ p)
  call-Steps unload_call p = guarded _ _ _ _ (done _) (unload_hooked-Steps _ p)
  call-Steps start_call p = guarded _ _ _ _ (done _) (after_hook-Steps state_running _ p)
  call-Steps stop_call p = guarded _ _ _ _ (done _) (after_hook-Steps state_stopped _ p)
  call-Steps (update_call c) p = update_valid-Steps c _ p

  -- Calls one after the other, whatever they return.
  abbrev pub calls : List (Call C) → SmartPlugin C → SmartPlugin C
  calls [] p = p
  calls (c ∷ cs) p = calls cs (call c p).1

  -- Operations of a plugin in any order, failing or not, change its state by valid transitions of
  -- the state machine and by keeping errors, and by nothing else.
  pub calls-Steps :
      (cs : List (Call C)) (p : SmartPlugin C) → Steps p.state_manager (calls cs p).state_manager
  calls-Steps [] p = done p.state_manager
  calls-Steps (c ∷ cs) p = Steps-trans (call-Steps c p) (calls-Steps cs (call c p).1)
