-- ===== src/Plugin/Balance.antt =====
-- Which calls of the middleware `Execute` of internal/plugin/types/base.go makes.
use lauth.Prelude.{
  ℕ, ◌+◌, String, ◌≡◌, refl, inl, inr, Bool, true, false, Option, none, some, List, [], ◌∷◌, ◌++◌,
  arith, eqb, Bool-cases,
}
use lauth.Plugin.State.{PluginState, state_running}
use lauth.Plugin.Base.{same_state}
use lauth.Plugin.Execute.{
  Middleware, ExecuteHooks, Event, before, after, on_error, handle_error, handled, run_on_error,
  after_before, run_before, backwards, run_after, run_hooks, finish_execute, execute_ran, execute,
}

abbrev pub one_if : Bool → ℕ
one_if true = 1
one_if false = 0

-- What an event adds to the calls of Before of the middleware k; and to those that close it.
abbrev pub opens : ℕ → Event → ℕ
opens k (before i) = one_if (eqb i k)
opens k _ = 0

abbrev pub closes : ℕ → Event → ℕ
closes k (after i) = one_if (eqb i k)
closes k (on_error i) = one_if (eqb i k)
closes k _ = 0

abbrev pub sum_of : (Event → ℕ) → List Event → ℕ
sum_of f [] = 0
sum_of f (e ∷ es) = f e + sum_of f es

sum_of-append :
    (f : Event → ℕ) (xs ys : List Event) → sum_of f (xs ++ ys) ≡ sum_of f xs + sum_of f ys
sum_of-append f [] ys = omega arith
sum_of-append f (x ∷ xs) ys = omega (arith, sum_of-append f xs ys)

-- How often the middleware k was run.
abbrev times : ℕ → List (ℕ × Middleware) → ℕ
times k [] = 0
times k ((i, m) ∷ ms) = one_if (eqb i k) + times k ms

handled-sum :
    (f : Event → ℕ) (o : Option String) (es : List Event)
    → f handle_error ≡ 0
    → sum_of f (handled o es) ≡ sum_of f es
handled-sum f none es z = refl
handled-sum f (some e) es z = omega arith

module _ (k : ℕ) where
  run_on_error-sums :
      (e : String) (ms : List (ℕ × Middleware))
      → (sum_of (opens k) (run_on_error e ms) ≡ 0)
        × (sum_of (closes k) (run_on_error e ms) ≡ times k ms)
  unfolding run_on_error
  run_on_error-sums e [] = (refl, refl)
  run_on_error-sums e ((j, m) ∷ ms) =
      let (o, c) = run_on_error-sums e ms in
      let po = handled-sum (opens k) (m.on_error e) (run_on_error e ms) refl in
      let pc = handled-sum (closes k) (m.on_error e) (run_on_error e ms) refl in
      (omega arith, omega arith)

  run_after-sums :
      (ms : List (ℕ × Middleware))
      → (sum_of (opens k) (run_after ms) ≡ 0) × (sum_of (closes k) (run_after ms) ≡ times k ms)
  unfolding run_after
  run_after-sums [] = (refl, refl)
  run_after-sums ((j, m) ∷ ms) =
      let (o, c) = run_after-sums ms in
      let po = handled-sum (opens k) m.after (run_after ms) refl in
      let pc = handled-sum (closes k) m.after (run_after ms) refl in (omega arith, omega arith)

  -- The loop over Before: what it opens is closed at once or is run backwards later.
  abbrev Opened : ℕ → List (ℕ × Middleware) → List Middleware → List Event × Bool → Type 0
  Opened i ran ms (events, true) =
      (sum_of (opens k) events + times k ran ≡ times k (backwards i ran ms))
      × (sum_of (closes k) events ≡ 0)
  Opened i ran ms (events, false) = sum_of (opens k) events + times k ran ≡ sum_of (closes k) events

  after_before-Opened :
      (answer : Option String) (i : ℕ) (m : Middleware) (ran : List (ℕ × Middleware))
      (ms : List Middleware) (later : List Event × Bool)
      → Opened (i + 1) ((i, m) ∷ ran) ms later
      → Opened i ran (m ∷ ms) (after_before answer i ((i, m) ∷ ran) later)
  unfolding backwards
  after_before-Opened (some e) i m ran ms later h =
      let (o, c) = run_on_error-sums e ((i, m) ∷ ran) in omega arith
  after_before-Opened none i m ran ms (events, true) h = (omega arith, omega arith)
  after_before-Opened none i m ran ms (events, false) h = omega arith

  run_before-Opened :
      (i : ℕ) (ran : List (ℕ × Middleware)) (ms : List Middleware)
      → Opened i ran ms (run_before i ran ms)
  unfolding run_before backwards
  run_before-Opened i ran [] = (omega arith, refl)
  run_before-Opened i ran (m ∷ ms) =
      after_before-Opened m.before i m ran ms (run_before (i + 1) ((i, m) ∷ ran) ms)
        (run_before-Opened (i + 1) ((i, m) ∷ ran) ms)

  abbrev Balanced : List Event → Type 0
  Balanced events = sum_of (opens k) events ≡ sum_of (closes k) events

  run_hooks-Balanced :
      (hooks : Option ExecuteHooks)
      → (sum_of (opens k) (run_hooks hooks).1 ≡ 0) × (sum_of (closes k) (run_hooks hooks).1 ≡ 0)
  run_hooks-Balanced none = (refl, refl)
  run_hooks-Balanced (some h) =
      let po = handled-sum (opens k) (h.on_execute_complete h.on_execute) [] refl in
      let pc = handled-sum (closes k) (h.on_execute_complete h.on_execute) [] refl in
      (omega arith, omega arith)

  finish-Balanced :
      (handler : Bool) (o : Option String)
      → (sum_of (opens k) (finish_execute handler o).0 ≡ 0)
        × (sum_of (closes k) (finish_execute handler o).0 ≡ 0)
  finish-Balanced handler none = (refl, refl)
  finish-Balanced true (some e) = (refl, refl)
  finish-Balanced false (some e) = (refl, refl)

  execute_ran-Balanced :
      (handler : Bool) (hooks : Option ExecuteHooks) (ms : List Middleware)
      (ran : List Event × Bool)
      → Opened 0 [] ms ran
      → Balanced (execute_ran handler hooks ms ran).0
  execute_ran-Balanced handler hooks ms (events, false) h = omega arith
  execute_ran-Balanced handler hooks ms (events, true) h =
      let (failed, calls) = run_hooks hooks in
      let last = (finish_execute handler failed).0 in
      let undo = run_after (backwards 0 [] ms) in
      let (ho, hc) = run_hooks-Balanced hooks in
      let (fo, fc) = finish-Balanced handler failed in
      let (ao, ac) = run_after-sums (backwards 0 [] ms) in
      omega (
        arith,
        sum_of-append (opens k) events (calls ++ (undo ++ last)),
        sum_of-append (closes k) events (calls ++ (undo ++ last)),
        sum_of-append (opens k) calls (undo ++ last),
        sum_of-append (closes k) calls (undo ++ last),
        sum_of-append (opens k) undo last,
        sum_of-append (closes k) undo last,
      )

-- In every run of Execute, each middleware is closed, by After or by OnError, exactly as often
-- as its Before is called, whichever call gives an error.
pub execute-Balanced :
    (handler : Bool) (hooks : Option ExecuteHooks) (ms : List Middleware) (state : PluginState)
    (k : ℕ)
    → let events = (execute handler hooks ms state).0 in
      sum_of (opens k) events ≡ sum_of (closes k) events
unfolding execute
execute-Balanced handler hooks ms state k = elim (Bool-cases (same_state state state_running)) [
  | inl e ↦
      simp e
        (execute_ran-Balanced k handler hooks ms (run_before 0 [] ms) (run_before-Opened k 0 [] ms))
  | inr e ↦ simp e
]
