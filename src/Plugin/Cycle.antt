-- ===== src/Plugin/Cycle.antt =====
-- A plugin of internal/plugin/types/base.go through its life, and one that is unloaded too early.
use lauth.Prelude.{◌≡◌, ◌⊎◌, inl, inr, Option, none, some}
use lauth.Plugin.State.{
  PluginState, state_uninitialized, state_initialized, state_running, state_stopped,
  is_valid_transition, store_state, set_state,
}
use lauth.Plugin.Base.{
  err_invalid_state, SmartPlugin, validate_config, call_hook, change_state, load, unload, start,
  stop,
}

module _ {C : Type 0} where
  -- The hooks that the plugin has give no error.
  pub record HooksWork (c : C) (p : SmartPlugin C) : Type 0 where
    pub on_load : call_hook (λ h. h.on_load c) p.hooks ≡ none
    pub on_start : call_hook (λ h. h.on_start) p.hooks ≡ none
    pub on_stop : call_hook (λ h. h.on_stop) p.hooks ≡ none
    pub on_unload : call_hook (λ h. h.on_unload) p.hooks ≡ none

  abbrev pub at : PluginState → Option C → SmartPlugin C → SmartPlugin C
  at s config p = record p { state_manager = record p.state_manager { state = s }; config = config }

  -- A plugin that is not loaded yet, whose validators accept the configuration and whose hooks
  -- work, goes by Load, Start, Stop and Unload through the four states, holds the configuration
  -- from Load to Unload, and ends as it was, without one.
  pub load-start-stop-unload :
      (c : C) (old : Option C) (p : SmartPlugin C)
      → validate_config p.validators c ≡ none
      → HooksWork c p
      → (load c (at state_uninitialized old p) ≡ (none, at state_initialized (some c) p))
        × (start (at state_initialized (some c) p) ≡ (none, at state_running (some c) p))
        × (stop (at state_running (some c) p) ≡ (none, at state_stopped (some c) p))
        × (unload (at state_stopped (some c) p) ≡ (none, at state_uninitialized none p))
  unfolding load unload start stop change_state set_state store_state is_valid_transition
  load-start-stop-unload c old p valid w =
      (rw (valid, w.on_load), rw w.on_start, rw w.on_stop, rw w.on_unload)

  -- Unload of a plugin that is initialized or running, with a hook that works, gives an error, and
  -- leaves the plugin in its state and without its configuration.
  pub unload_live :
      (s : PluginState) (config : Option C) (p : SmartPlugin C)
      → (s ≡ state_initialized) ⊎ (s ≡ state_running)
      → call_hook (λ h. h.on_unload) p.hooks ≡ none
      → unload (at s config p) ≡ (some err_invalid_state, at s none p)
  unfolding unload change_state set_state is_valid_transition
  unload_live s config p (inl e) w = rw (e, w)
  unload_live s config p (inr e) w = rw (e, w)
