-- ===== src/Engine/Outcome.antt =====
-- How a call of the rule engine ends: with a result, with an `error`, or with a Go run-time panic.
use lauth.Prelude.{String}

-- The errors that pkg/engine and internal/service/rule.go return.
pub data Error : Type 0 where
  field_not_found : String → Error
  invalid_in_values invalid_not_in_values unsupported_contains unsupported_not_contains : Error
  unsupported_operator : String → Error
  no_conditions execution_cancelled cache_miss : Error
  failed_to_load_rules failed_to_load_conditions failed_to_cache_rules redis_error : Error
  database_error rule_not_found rule_name_exists : Error

pub data Outcome {ℓ} (A : Type ℓ) : Type ℓ where
  ok : A → Outcome A
  err : Error → Outcome A
  panic : Outcome A

infixl 5 ◌>>=◌ ◌>>◌
abbrev pub ◌>>=◌ {ℓ κ} : {A : Type ℓ} {B : Type κ} → Outcome A → (A → Outcome B) → Outcome B
ok a >>= f = f a
err e >>= f = err e
panic >>= f = panic

abbrev pub ◌>>◌ {ℓ κ} : {A : Type ℓ} {B : Type κ} → Outcome A → Outcome B → Outcome B
m >> k = m >>= λ _. k
