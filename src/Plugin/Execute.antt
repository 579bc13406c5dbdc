-- ===== src/Plugin/Execute.antt =====
-- `Execute` of internal/plugin/types/base.go: the calls that it makes, in order.
use lauth.Prelude.{
  ℕ, ◌+◌, String, Bool, true, false, not, Option, none, some, List, [], ◌∷◌, ◌++◌, if◌then◌else◌,
}
use lauth.Plugin.State.{PluginState, state_running}
use lauth.Plugin.Base.{ErrorCode, err_invalid_state, err_execute_failed, same_state}

-- PluginMiddleware: what its methods answer.
pub record Middleware : Type 0 where
  pub before : Option String
  pub after : Option String
  pub on_error : String → Option String

-- The hooks that `Execute` calls.
pub record ExecuteHooks : Type 0 where
  pub on_execute : Option String
  pub on_execute_complete : Option String → Option String

-- A call that `Execute` makes; middleware is named by its place in the list.
pub data Event : Type 0 where
  before after on_error : ℕ → Event
  on_execute handle_error : Event
  on_execute_complete : Option String → Event

-- HandleError of the plugin after a call that answers an error.
abbrev pub handled : Option String → List Event → List Event
handled none events = events
handled (some e) events = handle_error ∷ events

-- OnError of the middleware that was run, the last one first.
unfoldable pub run_on_error : String → List (ℕ × Middleware) → List Event
run_on_error e [] = []
run_on_error e ((j, m) ∷ ms) = on_error j ∷ handled (m.on_error e) (run_on_error e ms)

-- One round of the loop over Before, with the middleware that was run; false when it returns.
abbrev pub after_before :
    Option String → ℕ → List (ℕ × Middleware) → List Event × Bool → List Event × Bool
after_before (some e) i ran later = (before i ∷ run_on_error e ran, false)
after_before none i ran later = (before i ∷ later.0, later.1)

-- The loop over Before from the place i on.
unfoldable pub run_before : ℕ → List (ℕ × Middleware) → List Middleware → List Event × Bool
run_before i ran [] = ([], true)
run_before i ran (m ∷ ms) =
    after_before m.before i ((i, m) ∷ ran) (run_before (i + 1) ((i, m) ∷ ran) ms)

-- The middleware with its places, the last one first.
unfoldable pub backwards : ℕ → List (ℕ × Middleware) → List Middleware → List (ℕ × Middleware)
backwards i ran [] = ran
backwards i ran (m ∷ ms) = backwards (i + 1) ((i, m) ∷ ran) ms

-- The loop over After.
unfoldable pub run_after : List (ℕ × Middleware) → List Event
run_after [] = []
run_after ((i, m) ∷ ms) = after i ∷ handled m.after (run_after ms)

-- The error of OnExecute and the calls of the hooks.
abbrev pub run_hooks : Option ExecuteHooks → Option String × List Event
run_hooks none = (none, [])
run_hooks (some h) = (
  h.on_execute,
  on_execute ∷ on_execute_complete h.on_execute ∷ handled (h.on_execute_complete h.on_execute) [],
)

-- The end of `Execute`; `handler` tells whether there is an error handler.
abbrev pub finish_execute : Bool → Option String → List Event × Option ErrorCode
finish_execute handler none = ([], none)
finish_execute handler (some e) =
    (if handler then handle_error ∷ [] else [], some err_execute_failed)

-- `Execute` from the loop over Before on.
abbrev pub execute_ran :
    Bool → Option ExecuteHooks → List Middleware → List Event × Bool → List Event × Option ErrorCode
execute_ran handler hooks ms (events, false) = (events, some err_execute_failed)
execute_ran handler hooks ms (events, true) =
    let (failed, calls) = run_hooks hooks in
    let (last, answer) = finish_execute handler failed in
    (events ++ (calls ++ (run_after (backwards 0 [] ms) ++ last)), answer)

-- Execute
unfoldable pub execute :
    Bool → Option ExecuteHooks → List Middleware → PluginState → List Event × Option ErrorCode
execute handler hooks ms state =
    if not (same_state state state_running)
    then ([], some err_invalid_state)
    else execute_ran handler hooks ms (run_before 0 [] ms)
