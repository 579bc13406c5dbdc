-- ===== src/Rules/Fresh.antt =====
-- The cache never hides a change: after an operation that succeeds, the next decision for its
-- application is made on the tables.
use lauth.Prelude.{
  ℕ, ◌≤◌, ◌+◌, String, ◌==◌, eq_refl, ◌≡◌, Bool, false, none, some, List, [], ◌∷◌, arith, map,
  length,
}
use lauth.Prelude.Dict.{Dict, lookup, insert, lookup-erase, lookup-insert}
use lauth.Engine.Outcome.{ok}
use lauth.Engine.Value.{Value}
use lauth.Engine.Parser.{RuleCondition}
use lauth.Engine.Evaluate.{Rule, evaluate_rules}
use lauth.Rules.Store.{called, Store, Action}
use lauth.Rules.Cache.{build_key, default_expiration, with_conditions, load_rules, evaluate}
use lauth.Rules.Repository.{first, active, conditions_of}
use lauth.Rules.Service

-- Redis holds nothing for the application.
abbrev pub IsUncached : String → Store → Type 0
IsUncached app s = lookup (build_key app) s.cache ≡ none

-- The operations that change the tables.
pub data Change : Type 0 where
  create : String → Rule → Change
  update : Rule → Change
  delete remove_conditions : String → Change
  add_conditions update_conditions : String → List RuleCondition → Change

abbrev pub apply : Change → Action (Unit {0})
apply (create app rule) = Service.create app rule
apply (update rule) = Service.update rule
apply (delete id) = Service.delete id
apply (remove_conditions id) = Service.remove_conditions id
apply (add_conditions id cs) = Service.add_conditions id cs
apply (update_conditions id cs) = Service.update_conditions id cs

abbrev pub OwnedBy : String → Store → String → Type 0
OwnedBy id s app = (r : Rule) × (first (λ x. x.id == id) s.rules ≡ some r) × (r.app_id ≡ app)

-- The application that a change concerns.
abbrev pub Concerns : Change → Store → String → Type 0
Concerns (create a rule) s app = a ≡ app
Concerns (update rule) s app = rule.app_id ≡ app
Concerns (delete id) s app = OwnedBy id s app
Concerns (remove_conditions id) s app = OwnedBy id s app
Concerns (add_conditions id cs) s app = OwnedBy id s app
Concerns (update_conditions id cs) s app = OwnedBy id s app

module _ (s : Store) (app : String) where
  apply-IsUncached :
      (ch : Change) → Concerns ch s app → (apply ch s).0 ≡ ok tt → IsUncached app (apply ch s).1
  unfolding Service.create Service.update Service.delete Service.add_conditions
      Service.update_conditions Service.remove_conditions
  apply-IsUncached (create a rule) c h =
      ground (arith, lookup-erase (build_key app) (build_key app) s.cache, eq_refl (build_key app))
  apply-IsUncached (add_conditions id []) c h = ground (arith, h)
  apply-IsUncached (update_conditions id []) c h = ground (arith, h)
  apply-IsUncached (add_conditions id (x ∷ xs)) c h =
      ground (arith, lookup-erase (build_key app) (build_key app) s.cache, eq_refl (build_key app))
  apply-IsUncached (update_conditions id (x ∷ xs)) c h =
      ground (arith, lookup-erase (build_key app) (build_key app) s.cache, eq_refl (build_key app))
  apply-IsUncached ch c h =
      ground (arith, lookup-erase (build_key app) (build_key app) s.cache, eq_refl (build_key app))

-- From here on no call fails.
abbrev pub IsUp : Store → Type 0
IsUp s = (n : ℕ) → s.calls ≤ n → s.fails n ≡ false

abbrev pub with_own_conditions : Store → Rule → Rule
with_own_conditions s r = record r { conditions = conditions_of r.id s.conditions }

-- The enabled rules of the application with their conditions, by falling priority.
abbrev pub loaded : String → Store → List Rule
loaded app s = map (with_own_conditions s) (active app s.rules)

with_conditions_lem :
    (rs : List Rule) (s : Store)
    → IsUp s
    → with_conditions rs s
      ≡ (ok (map (with_own_conditions s) rs), record s { calls = s.calls + length rs })
unfolding with_conditions
with_conditions_lem [] s up = ground arith
with_conditions_lem (r ∷ rs) s up =
    ground (arith, up s.calls, with_conditions_lem rs (called s) (λ n h. up n (omega arith)))

-- The state after a load: the rules are cached for 24 hours.
abbrev cached : String → Store → Store
cached app s = record s {
  cache =
      insert (build_key app) (record { rules = loaded app s; expires = s.now + default_expiration })
        s.cache;
  calls = s.calls + length (active app s.rules) + 2;
}

load_rules_lem : (app : String) (s : Store) → IsUp s → load_rules app s ≡ (ok tt, cached app s)
unfolding load_rules
load_rules_lem app s up = ground (
  arith,
  up s.calls,
  with_conditions_lem (active app s.rules) (called s) (λ n h. up n (omega arith)),
  up (s.calls + 1 + length (active app s.rules)),
)

module _ (sprint : Value → String) (cancelled : Rule → Bool) where
  evaluate_uncached :
      (app : String) (d : Dict Value) (s : Store)
      → IsUp s
      → IsUncached app s
      → (evaluate sprint cancelled app d s).0
        ≡ evaluate_rules sprint s.now cancelled (loaded app s) d
  unfolding evaluate
  evaluate_uncached app d s up none_there = ground (
    arith,
    up s.calls,
    load_rules_lem app (called s) (λ n h. up n (omega arith)),
    lookup-insert (build_key app) (build_key app)
        (record { rules = loaded app s; expires = s.now + default_expiration }) s.cache,
    eq_refl (build_key app),
    up (s.calls + 1 + length (active app s.rules) + 2),
  )

  -- After a change that succeeds, and with no failing call from then on, the decision for the
  -- application that it concerns is the one over the tables as the change has left them, whatever
  -- the cache held before.
  pub evaluate-apply :
      (ch : Change) (app : String) (d : Dict Value) (s : Store)
      → Concerns ch s app
      → (apply ch s).0 ≡ ok tt
      → IsUp (apply ch s).1
      → (evaluate sprint cancelled app d (apply ch s).1).0
        ≡ evaluate_rules sprint (apply ch s).1.now cancelled (loaded app (apply ch s).1) d
  evaluate-apply ch app d s c done up =
      evaluate_uncached app d (apply ch s).1 up (apply-IsUncached s app ch c done)
