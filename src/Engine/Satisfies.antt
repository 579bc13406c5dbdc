-- ===== src/Engine/Satisfies.antt =====
-- When the code takes a condition of internal/model/rule.go to hold of a request's data, said
-- without parsing and evaluation.
use Prim.Native.Nat.{Ordering}
use Prim.Native.String.{compare}
use lauth.Prelude.{
  String, ◌≡◌, ◌≢◌, ◌↔◌, refl, ap, Bool, true, false, Option, none, some, List, [], ◌∷◌, arith, All,
  Any, ◌==◌, eq_iff, ◌||◌,
}
use lauth.Prelude.Dict.{Dict, lookup}
use lauth.Engine.Outcome.{ok}
use lauth.Engine.Value.{Value, null, str, arr, items, eq_value}
use lauth.Engine.Expression.{text_contains, has_item}
use lauth.Engine.Parser.{
  Operator, eq, ne, gt, gte, lt, lte, is_in, not_in, contains, not_contains, other, RuleCondition,
}

abbrev pub After : Value → String → Type 0
After (str s) w = compare s w ≡ Ordering.gt
After _ w = ⊥

abbrev pub Before : Value → String → Type 0
Before (str s) w = compare s w ≡ Ordering.lt
Before _ w = ⊥

abbrev pub HasText : Value → String → Type 0
HasText (str s) w = text_contains s w ≡ true
HasText (arr vs) w = Any (λ item. item ≡ str w) (items vs)
HasText _ w = ⊥

abbrev pub LacksText : Value → String → Type 0
LacksText (str s) w = text_contains s w ≡ false
LacksText (arr vs) w = All (λ item. item ≢ str w) (items vs)
LacksText _ w = ⊥

-- Texts are ordered by their bytes; a value that is no text lies neither before nor after one.
-- No value is in, or not in, the one text that a stored condition has.
abbrev pub Meets : Operator → Value → String → Type 0
Meets eq v w = v ≡ str w
Meets ne v w = v ≢ str w
Meets gt v w = After v w
Meets gte v w = ¬ (Before v w)
Meets lt v w = Before v w
Meets lte v w = ¬ (After v w)
Meets is_in v w = ⊥
Meets not_in v w = ⊥
Meets contains v w = HasText v w
Meets not_contains v w = LacksText v w
Meets (other op) v w = ⊥

abbrev pub FieldMeets : Option Value → RuleCondition → Type 0
FieldMeets none c = ⊥
FieldMeets (some v) c = Meets c.operator v c.value

-- The field is there and its value meets the condition.
abbrev pub Satisfies : Dict Value → RuleCondition → Type 0
Satisfies d c = FieldMeets (lookup c.field d) c

-- Comparison with a text does not panic, and is equality.
abbrev pub is_text : Value → String → Bool
is_text (str s) w = s == w
is_text _ w = false

pub eq_value-str : (v : Value) (w : String) → eq_value v (str w) ≡ ok (is_text v w)
unfolding eq_value
eq_value-str null w = refl
eq_value-str _ w = refl

pub is_text_iff : (v : Value) (w : String) → (is_text v w ≡ true) ↔ (v ≡ str w)
is_text_iff (str s) w = (λ h. ap str ((eq_iff s w).0 h), λ e. ground (arith, eq_iff s w))
is_text_iff _ w = (λ h. cc, λ e. cc)

abbrev pub any_text : List Value → String → Bool
any_text [] w = false
any_text (v ∷ vs) w = is_text v w || any_text vs w

pub has_item-str : (vs : List Value) (w : String) → has_item (str w) vs ≡ ok (any_text vs w)
unfolding has_item
has_item-str [] w = refl
has_item-str (v ∷ vs) w = rw eq_value-str (ground (arith, has_item-str vs w))

pub any_text_iff :
    (vs : List Value) (w : String) → (any_text vs w ≡ true) ↔ Any (λ item. item ≡ str w) vs
any_text_iff [] w = (λ h. cc, λ h. absurd h)
any_text_iff (v ∷ vs) w = ground (arith, is_text_iff v w, any_text_iff vs w)

pub no_text_iff :
    (vs : List Value) (w : String) → (any_text vs w ≡ false) ↔ All (λ item. item ≢ str w) vs
no_text_iff [] w = (λ h. tt, λ h. refl)
no_text_iff (v ∷ vs) w = ground (arith, is_text_iff v w, no_text_iff vs w)
