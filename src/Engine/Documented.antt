-- ===== src/Engine/Documented.antt =====
-- What internal/model/rule.go says of the operators of a condition, and where the code keeps to
-- it.
use lauth.Prelude.{
  String, ◌≡◌, ◌≢◌, ◌⊎◌, ◌↔◌, Option, none, some, List, [], ◌∷◌, arith, All, eq_iff, ap, true,
}
use lauth.Prelude.Dict.{Dict, lookup}
use lauth.Engine.Outcome.{ok, panic, ◌>>=◌}
use lauth.Engine.Value.{Value, str, arr}
use lauth.Engine.Expression.{evaluate}
use lauth.Engine.Parser.{
  Operator, eq, ne, gt, gte, lt, lte, is_in, not_in, contains, not_contains, other, RuleCondition,
  parse,
}
use lauth.Engine.Satisfies.{After, Before, HasText, LacksText, Meets, Satisfies, FieldMeets}
use lauth.Engine.Semantics.{AllHold, parse-Agrees}

-- Equal, not equal, after, after or equal, before, before or equal, contains, does not contain. A
-- list of texts has no notation in the one text of a condition, so nothing is said of is_in and
-- not_in; an operator that the file does not name means nothing.
abbrev pub Means : Operator → Value → String → Type 0
Means eq v w = v ≡ str w
Means ne v w = v ≢ str w
Means gt v w = After v w
Means gte v w = After v w ⊎ (v ≡ str w)
Means lt v w = Before v w
Means lte v w = Before v w ⊎ (v ≡ str w)
Means contains v w = HasText v w
Means not_contains v w = LacksText v w
Means op v w = ⊥

abbrev pub IsText : Value → Type 0
IsText (str s) = Unit
IsText _ = ⊥

abbrev pub IsTextOrList : Value → Type 0
IsTextOrList (str s) = Unit
IsTextOrList (arr vs) = Unit
IsTextOrList _ = ⊥

-- The operators whose meaning the code keeps to: the order is that of texts, and texts and lists
-- contain.
abbrev pub IsCovered : Operator → Value → Type 0
IsCovered is_in v = ⊥
IsCovered not_in v = ⊥
IsCovered gt v = IsText v
IsCovered gte v = IsText v
IsCovered lt v = IsText v
IsCovered lte v = IsText v
IsCovered contains v = IsTextOrList v
IsCovered not_contains v = IsTextOrList v
IsCovered op v = Unit

abbrev pub FieldMeans : Option Value → RuleCondition → Type 0
FieldMeans none c = ⊥
FieldMeans (some v) c = Means c.operator v c.value

abbrev pub FieldIsCovered : Option Value → RuleCondition → Type 0
FieldIsCovered none c = Unit
FieldIsCovered (some v) c = IsCovered c.operator v

abbrev pub IsMeant : Dict Value → RuleCondition → Type 0
IsMeant d c = FieldMeans (lookup c.field d) c

abbrev pub IsCoveredIn : Dict Value → RuleCondition → Type 0
IsCoveredIn d c = FieldIsCovered (lookup c.field d) c

-- There is a condition, and every condition holds as it is documented.
abbrev pub AllMeant : Dict Value → List RuleCondition → Type 0
AllMeant d [] = ⊥
AllMeant d (c ∷ cs) = All (IsMeant d) (c ∷ cs)

Meets-Means :
    (op : Operator) (v : Value) (w : String) → IsCovered op v → Meets op v w ↔ Means op v w
Meets-Means gte (str s) w h =
    let e : (str s ≡ str w) ↔ (s ≡ w) = (λ h. cc, λ h. ap str h) in ground (arith, eq_iff s w, e)
Meets-Means lte (str s) w h =
    let e : (str s ≡ str w) ↔ (s ≡ w) = (λ h. cc, λ h. ap str h) in ground (arith, eq_iff s w, e)
Meets-Means is_in v w h = absurd h
Meets-Means not_in v w h = absurd h
Meets-Means eq v w h = (λ k. k, λ k. k)
Meets-Means ne v w h = (λ k. k, λ k. k)
Meets-Means contains v w h = (λ k. k, λ k. k)
Meets-Means not_contains v w h = (λ k. k, λ k. k)
Meets-Means (other op) v w h = (λ k. k, λ k. k)
Meets-Means gt v w h = (λ k. k, λ k. k)
Meets-Means lt v w h = (λ k. k, λ k. k)
Meets-Means op v w h = absurd h

field_iff :
    (o : Option Value) (c : RuleCondition) → FieldIsCovered o c → FieldMeets o c ↔ FieldMeans o c
field_iff none c covered = (λ h. h, λ h. h)
field_iff (some v) c covered = Meets-Means c.operator v c.value covered

all_iff :
    (d : Dict Value) (cs : List RuleCondition)
    → All (IsCoveredIn d) cs
    → All (Satisfies d) cs ↔ All (IsMeant d) cs
all_iff d [] covered = (λ h. h, λ h. h)
all_iff d (c ∷ cs) (here, later) =
    let here_iff = field_iff (lookup c.field d) c here in
    let later_iff = all_iff d cs later in
    (λ (h, hs). (here_iff.0 h, later_iff.0 hs), λ (h, hs). (here_iff.1 h, later_iff.1 hs))

module _ (sprint : Value → String) (plain : (s : String) → sprint (str s) ≡ s) where
  AllHold-AllMeant :
      (d : Dict Value) (cs : List RuleCondition)
      → All (IsCoveredIn d) cs
      → AllHold sprint plain d cs ↔ AllMeant d cs
  AllHold-AllMeant d [] covered = (λ h. h, λ h. h)
  AllHold-AllMeant d (c ∷ cs) covered = all_iff d (c ∷ cs) covered

  -- Parsing conditions and evaluating what was parsed answers true exactly when there is a
  -- condition and each holds as its operator is documented, and it never panics. The conditions
  -- are without in and not_in; the field of one that orders (gt, gte, lt, lte) is a text or
  -- missing, and that of one with contains or not_contains a text, a list or missing; nothing
  -- is said of the others. A condition on a missing field does not hold, texts are ordered by their
  -- bytes, a value that is no text is equal to none, and fmt prints a text as it is.
  pub parse-AllMeant :
      (cs : List RuleCondition) (d : Dict Value)
      → All (IsCoveredIn d) cs
      → (((do e ← parse cs; evaluate sprint e d) ≡ ok true) ↔ AllMeant d cs)
        × ((do e ← parse cs; evaluate sprint e d) ≢ panic)
  parse-AllMeant cs d covered =
      let (holds, calm) = parse-Agrees sprint plain cs d in
      let meant = AllHold-AllMeant d cs covered in
      ((λ h. meant.0 (holds.0 h), λ h. holds.1 (meant.1 h)), calm)
