-- ===== src/Engine/Semantics.antt =====
-- Parsing and evaluating the conditions of a rule answers what `Satisfies` says.
use lauth.Prelude.{
  String, ◌≡◌, ◌≢◌, ◌↔◌, inl, inr, Bool, true, none, some, List, [], ◌∷◌, arith, All, Option-cases,
}
use lauth.Prelude.Dict.{Dict, lookup}
use lauth.Engine.Outcome.{Outcome, ok, err, panic, ◌>>=◌}
use lauth.Engine.Value.{Value, str, arr, items, compare_values}
use lauth.Engine.Expression.{
  Expression, Expressions, cons, and_of, find_field, evaluate, evaluate_all, contains_in,
  not_contains_in,
}
use lauth.Engine.Parser.{
  Operator, eq, ne, contains, not_contains, RuleCondition, parse_operator, parse_condition,
  parse_conditions, parse,
}
use lauth.Engine.Satisfies.{
  Satisfies, Meets, eq_value-str, is_text_iff, has_item-str, any_text_iff, no_text_iff,
}

module _ (sprint : Value → String) (plain : (s : String) → sprint (str s) ≡ s) where
  abbrev run : Operator → String → String → Dict Value → Outcome Bool
  run op f w d = do e ← parse_operator op f w; evaluate sprint e d

  -- The operators on the value that was found.
  abbrev Meant : Operator → Value → String → Outcome Bool → Type 0
  Meant op v w r = ((r ≡ ok true) ↔ Meets op v w) × (r ≢ panic)

  contains-Meant : (v : Value) (w : String) → Meant contains v w (contains_in sprint v (str w))
  unfolding contains_in
  contains-Meant (str s) w = rw plain (ground arith)
  contains-Meant (arr vs) w = rw has_item-str (ground (arith, any_text_iff (items vs) w))
  contains-Meant _ w = ground arith

  not_contains-Meant :
      (v : Value) (w : String) → Meant not_contains v w (not_contains_in sprint v (str w))
  unfolding not_contains_in
  not_contains-Meant (str s) w = rw plain (ground arith)
  not_contains-Meant (arr vs) w = rw has_item-str (ground (arith, no_text_iff (items vs) w))
  not_contains-Meant _ w = ground arith

  run-Meant :
      (op : Operator) (f w : String) (v : Value) (d : Dict Value)
      → lookup f d ≡ some v
      → Meant op v w (run op f w d)
  unfolding evaluate find_field compare_values
  run-Meant eq f w v d e = ground (arith, eq_value-str v w, is_text_iff v w)
  run-Meant ne f w v d e = ground (arith, eq_value-str v w, is_text_iff v w)
  run-Meant contains f w v d e = rw (e, find_field, ◌>>=◌) (contains-Meant v w)
  run-Meant not_contains f w v d e = ground (arith, not_contains-Meant v w)
  run-Meant op f w (str s) d e = ground arith
  run-Meant op f w v d e = ground arith

  abbrev Agrees : Outcome Bool → Type 0 → Type 0
  Agrees r P = ((r ≡ ok true) ↔ P) × (r ≢ panic)

  missing-Agrees :
      (op : Operator) (f w : String) (d : Dict Value) → lookup f d ≡ none → Agrees (run op f w d) ⊥
  unfolding evaluate find_field
  missing-Agrees eq f w d e = ground arith
  missing-Agrees op f w d e = ground arith

  condition-Agrees :
      (c : RuleCondition) (d : Dict Value)
      → Agrees (run c.operator c.field c.value d) (Satisfies d c)
  condition-Agrees c d = elim (Option-cases (lookup c.field d)) [
    | inl e ↦ rw e (missing-Agrees c.operator c.field c.value d e)
    | inr (v, e) ↦ rw e (run-Meant c.operator c.field c.value v d e)
  ]

  join-Agrees :
      (p : Outcome Expression) (q : Outcome Expressions) (d : Dict Value) {P Q : Type 0}
      → Agrees (do e ← p; evaluate sprint e d) P
      → Agrees (do es ← q; evaluate_all sprint es d) Q
      → Agrees (do es ← (do e ← p; es ← q; ok (cons e es)); evaluate_all sprint es d) (P × Q)
  unfolding evaluate_all
  join-Agrees (ok e) (ok es) d here later = ground arith
  join-Agrees (ok e) (err x) d here later = ground arith
  join-Agrees (ok e) panic d here later = ground arith
  join-Agrees (err x) q d here later = ground arith
  join-Agrees panic q d here later = ground arith

  conditions-Agrees :
      (cs : List RuleCondition) (d : Dict Value)
      → Agrees (do es ← parse_conditions cs; evaluate_all sprint es d) (All (Satisfies d) cs)
  unfolding parse_conditions parse_condition evaluate_all
  conditions-Agrees [] d = ground arith
  conditions-Agrees (c ∷ cs) d =
      join-Agrees (parse_condition c) (parse_conditions cs) d (condition-Agrees c d)
        (conditions-Agrees cs d)

  -- The rule's conditions are parsed and all hold.
  abbrev pub AllHold : Dict Value → List RuleCondition → Type 0
  AllHold d [] = ⊥
  AllHold d (c ∷ cs) = All (Satisfies d) (c ∷ cs)

  pub parse-Agrees :
      (cs : List RuleCondition) (d : Dict Value)
      → (((do e ← parse cs; evaluate sprint e d) ≡ ok true) ↔ AllHold d cs)
        × ((do e ← parse cs; evaluate sprint e d) ≢ panic)
  unfolding parse evaluate
  parse-Agrees [] d = ground arith
  parse-Agrees (c ∷ cs) d = and_of-Agrees (parse_conditions (c ∷ cs)) (conditions-Agrees (c ∷ cs) d)
    where
      and_of-Agrees :
          (q : Outcome Expressions) {Q : Type 0}
          → Agrees (do es ← q; evaluate_all sprint es d) Q
          → Agrees (do e ← (do es ← q; ok (and_of es)); evaluate sprint e d) Q
      and_of-Agrees (ok es) h = h
      and_of-Agrees (err x) h = h
      and_of-Agrees panic h = h
