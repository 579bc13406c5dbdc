-- ===== src/Engine/Expression.antt =====
-- The expressions of pkg/engine/parser.go: their `Evaluate` and `String` methods.
use Prim.Native.Nat.{Ordering}
use text.Mathlib.Text.{find?}
use lauth.Prelude.{String, Bool, true, false, not, Option, none, some, List, [], ◌∷◌, if◌then◌else◌}
use lauth.Prelude.Dict.{Dict, lookup}
use lauth.Engine.Outcome.{
  Outcome, ok, err, panic, ◌>>=◌, Error, field_not_found, invalid_in_values, invalid_not_in_values,
  unsupported_contains, unsupported_not_contains,
}
use lauth.Engine.Value.{Value, str, arr, items, eq_value, compare_values}

mutual
  pub data Expression : Type 0 where
    equal not_equal greater_than greater_than_or_equal less_than less_than_or_equal :
        String → Value → Expression
    is_in not_in contains not_contains : String → Value → Expression
    and_of : Expressions → Expression

  pub data Expressions : Type 0 where
    nil : Expressions
    cons : Expression → Expressions → Expressions

-- `data[e.field]`, with the error that each expression returns for a missing field.
unfoldable pub find_field : String → Dict Value → Outcome Value
find_field name fields = elim (lookup name fields) [
  | none ↦ err (field_not_found name)
  | some v ↦ ok v
]

-- The assertion `e.value.([]interface{})`.
abbrev pub as_array : Value → Option (List Value)
as_array (arr vs) = some (items vs)
as_array _ = none

abbrev pub or_error : Option (List Value) → Error → Outcome (List Value)
or_error none e = err e
or_error (some vs) e = ok vs

-- `for _, v := range values { if value == v { return true } }; return false`
unfoldable pub member : Value → List Value → Outcome Bool
member value [] = ok false
member value (v ∷ vs) =
    let rest = member value vs in do same ← eq_value value v; if same then ok true else rest

-- The loop of CONTAINS compares the other way round: `item == e.value`.
unfoldable pub has_item : Value → List Value → Outcome Bool
has_item value [] = ok false
has_item value (item ∷ rest) =
    let later = has_item value rest in
    do same ← eq_value item value; if same then ok true else later

abbrev pub negate : Outcome Bool → Outcome Bool
negate m = do b ← m; ok (not b)

abbrev pub is_gt : Ordering → Bool
is_gt Ordering.gt = true
is_gt _ = false

abbrev pub is_lt : Ordering → Bool
is_lt Ordering.lt = true
is_lt _ = false

-- strings.Contains
abbrev pub text_contains : String → String → Bool
text_contains s t = elim (find? s t) [ none ↦ false | some _ ↦ true ]

-- One round of the loop of `andExpression`: an error or a false condition ends it.
abbrev pub and_then : Outcome Bool → Outcome Bool → Outcome Bool
and_then (ok true) rest = rest
and_then (ok false) rest = ok false
and_then (err e) rest = err e
and_then panic rest = panic

-- `sprint` is `fmt.Sprintf("%v", value)`.
module _ (sprint : Value → String) where
  -- The type switch of CONTAINS on the field's value.
  unfoldable pub contains_in : Value → Value → Outcome Bool
  contains_in (str s) value = ok (text_contains s (sprint value))
  contains_in (arr vs) value = has_item value (items vs)
  contains_in _ value = err unsupported_contains

  unfoldable pub not_contains_in : Value → Value → Outcome Bool
  not_contains_in (str s) value = ok (not (text_contains s (sprint value)))
  not_contains_in (arr vs) value = negate (has_item value (items vs))
  not_contains_in _ value = err unsupported_not_contains

  unfoldable mutual
    pub evaluate : Expression → Dict Value → Outcome Bool
    evaluate (equal f value) d = do v ← find_field f d; eq_value v value
    evaluate (not_equal f value) d = do v ← find_field f d; negate (eq_value v value)
    evaluate (greater_than f value) d = do v ← find_field f d; ok (is_gt (compare_values v value))
    evaluate (greater_than_or_equal f value) d = do
      v ← find_field f d
      ok (not (is_lt (compare_values v value)))
    evaluate (less_than f value) d = do v ← find_field f d; ok (is_lt (compare_values v value))
    evaluate (less_than_or_equal f value) d = do
      v ← find_field f d
      ok (not (is_gt (compare_values v value)))
    evaluate (is_in f value) d = do
      v ← find_field f d
      vs ← or_error (as_array value) invalid_in_values
      member v vs
    evaluate (not_in f value) d = do
      v ← find_field f d
      vs ← or_error (as_array value) invalid_not_in_values
      negate (member v vs)
    evaluate (contains f value) d = do v ← find_field f d; contains_in v value
    evaluate (not_contains f value) d = do v ← find_field f d; not_contains_in v value
    evaluate (and_of es) d = evaluate_all es d

    pub evaluate_all : Expressions → Dict Value → Outcome Bool
    evaluate_all nil d = ok true
    evaluate_all (cons e es) d = and_then (evaluate e d) (evaluate_all es d)
