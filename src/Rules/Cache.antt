-- ===== src/Rules/Cache.antt =====
-- pkg/engine/cache.go, and `LoadRules` and `Evaluate` of pkg/engine/engine.go. The JSON that is
-- stored is not modelled: a cached list of rules is that list.
use Prim.Native.String.{◌++◌}
use lauth.Prelude.{
  ℕ, ◌+◌, ◌*◌, String, Bool, Option, none, some, List, [], ◌∷◌, eqb, ltb, if◌then◌else◌,
}
use lauth.Prelude.Dict.{Dict, lookup, insert, erase}
use lauth.Engine.Outcome.{
  Outcome, ok, err, panic, Error, redis_error, cache_miss, failed_to_load_rules,
  failed_to_load_conditions, failed_to_cache_rules,
}
use lauth.Engine.Value.{Value}
use lauth.Engine.Evaluate.{Rule, EngineResult, evaluate_rules}
use lauth.Rules.Store.{Entry, Action, ◌>>=◌, ◌>>◌, pure, read, write}
use lauth.Rules.Repository.{get_conditions, get_active_rules}

abbrev pub rule_key_prefix : String
rule_key_prefix = "rules:"

-- 24 hours, in nanoseconds
abbrev pub default_expiration : ℕ
default_expiration = 24 * 3600 * 1_000_000_000

unfoldable pub build_key : String → String
build_key app = rule_key_prefix ++ app

-- Redis holds an entry until it expires; a missing key is an error of `Get`.
abbrev pub live : ℕ → Option Entry → Outcome (List Rule)
live now none = err cache_miss
live now (some e) = if ltb now e.expires then ok e.rules else err cache_miss

abbrev pub cache_get : String → Action (List Rule)
cache_get app = read redis_error (λ s. live s.now (lookup (build_key app) s.cache))

abbrev pub expiration_or_default : ℕ → ℕ
expiration_or_default d = if eqb d 0 then default_expiration else d

abbrev pub cache_set : String → List Rule → ℕ → Action (Unit {0})
cache_set app rules expiration = write failed_to_cache_rules (λ s. record s {
  cache =
      insert (build_key app)
        (record { rules = rules; expires = s.now + expiration_or_default expiration }) s.cache;
})

abbrev pub cache_delete : String → Action (Unit {0})
cache_delete app = write redis_error (λ s. record s { cache = erase (build_key app) s.cache })

-- engine.InvalidateCache
abbrev pub invalidate_cache : String → Action (Unit {0})
invalidate_cache app = cache_delete app

-- `return fmt.Errorf("failed to …: %v", err)`
abbrev pub wrap : {A : Type 0} → Error → Action A → Action A
wrap e m s =
    let (r, s') = m s in elim r [ ok a ↦ (ok a, s') | err _ ↦ (err e, s') | panic ↦ (panic, s') ]

-- The loop of `LoadRules` that fetches the conditions of each rule.
unfoldable pub with_conditions : List Rule → Action (List Rule)
with_conditions [] = pure []
with_conditions (r ∷ rs) = do
  cs ← wrap failed_to_load_conditions (get_conditions r.id)
  rest ← with_conditions rs
  pure (record r { conditions = cs } ∷ rest)

unfoldable pub load_rules : String → Action (Unit {0})
load_rules app = do
  rows ← wrap failed_to_load_rules (get_active_rules app)
  rules ← with_conditions rows
  cache_set app rules 0

-- The cached rules, loaded first where the cache gives an error.
abbrev pub rules_of : String → Action (List Rule)
rules_of app s =
    let (r, s') = cache_get app s in
    elim r [
      | ok rules ↦ (ok rules, s')
      | err _ ↦ (load_rules app >> cache_get app) s'
      | panic ↦ (panic, s')
    ]

module _ (sprint : Value → String) (cancelled : Rule → Bool) where
  -- engine.Evaluate
  unfoldable pub evaluate : String → Dict Value → Action EngineResult
  evaluate app d = do rules ← rules_of app; λ s. (evaluate_rules sprint s.now cancelled rules d, s)
