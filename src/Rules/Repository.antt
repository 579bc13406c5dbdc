-- ===== src/Rules/Repository.antt =====
-- internal/repository/rule.go: the queries of the rule tables.
use lauth.Prelude.{
  String, ◌==◌, Bool, true, not, ◌&&◌, Option, none, some, List, [], ◌∷◌, ◌++◌, map, keep,
  if◌then◌else◌,
}
use lauth.Prelude.Int.{ltb_ℤ}
use lauth.Engine.Outcome.{ok, database_error}
use lauth.Engine.Parser.{RuleCondition}
use lauth.Engine.Evaluate.{Rule}
use lauth.Rules.Store.{Action, raise, read, write, rolled_back}

-- `First`: the first row that passes the test, and nil for ErrRecordNotFound.
unfoldable pub first : (Rule → Bool) → List Rule → Option Rule
first p [] = none
first p (r ∷ rs) = if p r then some r else first p rs

abbrev pub get_by_id : String → Action (Option Rule)
get_by_id id = read database_error (λ s. ok (first (λ r. r.id == id) s.rules))

abbrev pub get_by_name : String → String → Action (Option Rule)
get_by_name app name =
    read database_error (λ s. ok (first (λ r. r.app_id == app && r.name == name) s.rules))

-- Create. The column is_enabled has the default true, which gorm takes for the zero value false:
-- every rule that is created is enabled.
abbrev pub create : Rule → Action (Unit {0})
create rule =
    write database_error
      (λ s. record s { rules = s.rules ++ (record rule { is_enabled = true }) ∷ [] })

-- `Save` writes the row with the rule's id, and creates one where there is none.
unfoldable pub save_row : Rule → List Rule → List Rule
save_row rule [] = (record rule { is_enabled = true }) ∷ []
save_row rule (r ∷ rs) = if r.id == rule.id then rule ∷ rs else r ∷ save_row rule rs

abbrev pub update : Rule → Action (Unit {0})
update rule = write database_error (λ s. record s { rules = save_row rule s.rules })

abbrev pub without_rule : String → List RuleCondition → List RuleCondition
without_rule rule_id cs = keep (λ c. not (c.rule_id == rule_id)) cs

-- One transaction: both deletes happen or neither.
abbrev pub delete : String → Action (Unit {0})
delete id = write database_error (λ s. record s {
  rules = keep (λ r. not (r.id == id)) s.rules;
  conditions = without_rule id s.conditions;
})

-- conditions[i].RuleID = ruleID
abbrev pub owned_by : String → RuleCondition → RuleCondition
owned_by rule_id c = record c { rule_id = rule_id }

-- AddConditions. gorm refuses to create an empty slice, before it calls the database.
abbrev pub add_conditions : String → List RuleCondition → Action (Unit {0})
add_conditions rule_id [] = raise database_error
add_conditions rule_id (c ∷ cs) =
    write database_error
      (λ s. record s { conditions = s.conditions ++ map (owned_by rule_id) (c ∷ cs) })

-- UpdateConditions, one transaction: for an empty slice it is rolled back.
abbrev pub update_conditions : String → List RuleCondition → Action (Unit {0})
update_conditions rule_id [] = rolled_back database_error
update_conditions rule_id (c ∷ cs) = write database_error (λ s. record s {
  conditions = without_rule rule_id s.conditions ++ map (owned_by rule_id) (c ∷ cs);
})

abbrev pub remove_conditions : String → Action (Unit {0})
remove_conditions rule_id =
    write database_error (λ s. record s { conditions = without_rule rule_id s.conditions })

unfoldable pub conditions_of : String → List RuleCondition → List RuleCondition
conditions_of rule_id cs = keep (λ c. c.rule_id == rule_id) cs

abbrev pub get_conditions : String → Action (List RuleCondition)
get_conditions rule_id = read database_error (λ s. ok (conditions_of rule_id s.conditions))

-- ORDER BY priority DESC; rows of one priority may come in any order, and here keep the table's.
unfoldable pub insert_by_priority : Rule → List Rule → List Rule
insert_by_priority r [] = r ∷ []
insert_by_priority r (x ∷ xs) =
    if ltb_ℤ r.priority x.priority then x ∷ insert_by_priority r xs else r ∷ x ∷ xs

unfoldable pub sort_by_priority : List Rule → List Rule
unfolding insert_by_priority
sort_by_priority [] = []
sort_by_priority (r ∷ rs) = insert_by_priority r (sort_by_priority rs)

unfoldable pub active : String → List Rule → List Rule
unfolding sort_by_priority
active app rs = sort_by_priority (keep (λ r. r.app_id == app && r.is_enabled) rs)

abbrev pub get_active_rules : String → Action (List Rule)
get_active_rules app = read database_error (λ s. ok (active app s.rules))
