-- ===== src/Engine/Value.antt =====
-- The dynamic values of Go's `interface{}` that a JSON request holds, their `==`, and
-- `compareValues` of pkg/engine/parser.go.
use Prim.Native.Nat.{Ordering}
use Prim.Native.String.{compare}
use lauth.Prelude.{
  ℕ, ◌-◌, String, Bool, true, false, not, ◌&&◌, List, [], ◌∷◌, ltb, ◌==◌, if◌then◌else◌,
}
use lauth.Prelude.Int.{ℤ, pos, negsuc, ltb_ℤ, eqb_ℤ}
use lauth.Engine.Outcome.{Outcome, ok, panic}

-- An IEEE 754 double: its sign bit and the 63 bits below it.
pub record Float64 : Type 0 where
  pub negative : Bool
  pub magnitude : ℕ

abbrev pub is_nan : Float64 → Bool
is_nan f = ltb 0x7ff0_0000_0000_0000 f.magnitude

-- Doubles that are no NaN are ordered as these integers are.
abbrev pub float_key : Float64 → ℤ
float_key f = if f.negative && ltb 0 f.magnitude then negsuc (f.magnitude - 1) else pos f.magnitude

abbrev pub float_lt : Float64 → Float64 → Bool
float_lt a b = not (is_nan a) && not (is_nan b) && ltb_ℤ (float_key a) (float_key b)

abbrev pub float_eq : Float64 → Float64 → Bool
float_eq a b = not (is_nan a) && not (is_nan b) && eqb_ℤ (float_key a) (float_key b)

-- `null` is the nil interface, `arr` is `[]interface{}`, `obj` is `map[string]interface{}`.
mutual
  pub data Value : Type 0 where
    str : String → Value
    float : Float64 → Value
    int : ℤ → Value
    bool : Bool → Value
    null : Value
    arr : Slice → Value
    obj : Object → Value

  pub data Slice : Type 0 where
    end : Slice
    next : Value → Slice → Slice

  pub data Object : Type 0 where
    no_fields : Object
    entry : String → Value → Object → Object

abbrev pub items : Slice → List Value
items end = []
items (next v vs) = v ∷ items vs

abbrev eq_bool : Bool → Bool → Bool
eq_bool true b = b
eq_bool false b = not b

-- Go's `a == b` on interfaces: values of two dynamic types differ, and to compare two slices or
-- two maps panics.
unfoldable pub eq_value : Value → Value → Outcome Bool
eq_value null null = ok true
eq_value (bool a) (bool b) = ok (eq_bool a b)
eq_value (int a) (int b) = ok (eqb_ℤ a b)
eq_value (float a) (float b) = ok (float_eq a b)
eq_value (str a) (str b) = ok (a == b)
eq_value (arr a) (arr b) = panic
eq_value (obj a) (obj b) = panic
eq_value _ _ = ok false

abbrev order_by : Bool → Bool → Ordering
order_by true _ = Ordering.lt
order_by false true = Ordering.gt
order_by false false = Ordering.eq

-- compareValues; -1, 0 and 1 are `lt`, `eq` and `gt`.
unfoldable pub compare_values : Value → Value → Ordering
compare_values (int a) (int b) = order_by (ltb_ℤ a b) (ltb_ℤ b a)
compare_values (float a) (float b) = order_by (float_lt a b) (float_lt b a)
compare_values (str a) (str b) = compare a b
compare_values _ _ = Ordering.eq
