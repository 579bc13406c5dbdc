-- ===== src/Rules/Store.antt =====
-- The state that the rule service works on, and calls that may fail. The database and Redis are
-- not part of the program: their tables are lists and a map, and any call of either may fail, by
-- the schedule `fails` (a lost connection, a violated constraint).
use lauth.Prelude.{ℕ, ◌+◌, Bool, List, if◌then◌else◌}
use lauth.Prelude.Dict.{Dict}
use lauth.Engine.Outcome.{Outcome, ok, err, panic, Error}
use lauth.Engine.Parser.{RuleCondition}
use lauth.Engine.Evaluate.{Rule}

-- A cached value lives until `expires`.
pub record Entry : Type 0 where
  pub rules : List Rule
  pub expires : ℕ

-- A row of `rules` has no conditions; they are the rows of `conditions`.
pub record Store : Type 0 where
  pub rules : List Rule
  pub conditions : List RuleCondition
  pub cache : Dict Entry
  pub now : ℕ
  pub fails : ℕ → Bool
  pub calls : ℕ

abbrev pub Action : Type 0 → Type 0
Action A = Store → Outcome A × Store

infixl 5 ◌>>=◌ ◌>>◌
abbrev pub ◌>>=◌ : {A B : Type 0} → Action A → (A → Action B) → Action B
◌>>=◌ m f s =
    let (r, s') = m s in elim r [ ok a ↦ f a s' | err e ↦ (err e, s') | panic ↦ (panic, s') ]

abbrev pub ◌>>◌ : {A B : Type 0} → Action A → Action B → Action B
m >> k = m >>= λ _. k

abbrev pub pure : {A : Type 0} → A → Action A
pure a s = (ok a, s)

abbrev pub raise : {A : Type 0} → Error → Action A
raise e s = (err e, s)

abbrev pub lift : {A : Type 0} → Outcome A → Action A
lift r s = (r, s)

abbrev pub called : Store → Store
called s = record s { calls = s.calls + 1 }

-- A call that reads, and fails with the error `e`.
abbrev pub read : {A : Type 0} → Error → (Store → Outcome A) → Action A
read e f s = (if s.fails s.calls then err e else f s, called s)

-- A call that writes; one that fails has written nothing.
abbrev pub write : Error → (Store → Store) → Action (Unit {0})
write e f s = if s.fails s.calls then (err e, called s) else (ok tt, called (f s))

-- A transaction that is called and always ends with the error `e`.
abbrev pub rolled_back : Error → Action (Unit {0})
rolled_back e s = (err e, called s)
