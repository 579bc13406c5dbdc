-- ===== src/Rules/Service.antt =====
-- internal/service/rule.go: the operations on rules. `Create` is given the rule with the id that
-- the hook `BeforeCreate` leaves in it.
use lauth.Prelude.{String, ◌==◌, not, Option, none, some, List, if◌then◌else◌}
use lauth.Engine.Outcome.{rule_not_found, rule_name_exists}
use lauth.Engine.Parser.{RuleCondition}
use lauth.Engine.Evaluate.{Rule}
use lauth.Rules.Store.{Action, ◌>>=◌, ◌>>◌, pure, raise}
use lauth.Rules.Repository
use lauth.Rules.Cache.{invalidate_cache}

-- The rule with this id, or the error ErrRuleNotFound.
abbrev pub or_not_found : Option Rule → Action Rule
or_not_found none = raise rule_not_found
or_not_found (some r) = pure r

abbrev pub require : String → Action Rule
require id = do found ← Repository.get_by_id id; or_not_found found

abbrev pub refuse_if_found : Option Rule → Action (Unit {0})
refuse_if_found none = pure tt
refuse_if_found (some r) = raise rule_name_exists

unfoldable pub create : String → Rule → Action (Unit {0})
create app rule = do
  existing ← Repository.get_by_name app rule.name
  refuse_if_found existing
  Repository.create (record rule { app_id = app })
  invalidate_cache app

unfoldable pub get_by_id : String → Action Rule
get_by_id id = require id

abbrev pub refuse_other : String → Option Rule → Action (Unit {0})
refuse_other id none = pure tt
refuse_other id (some r) = if not (r.id == id) then raise rule_name_exists else pure tt

-- The new name must not be that of another rule of the application.
abbrev pub check_name : Rule → Rule → Action (Unit {0})
check_name rule existing =
    if not (rule.name == existing.name)
    then (do found ← Repository.get_by_name rule.app_id rule.name; refuse_other rule.id found)
    else pure tt

unfoldable pub update : Rule → Action (Unit {0})
update rule = do
  existing ← require rule.id
  check_name rule existing
  Repository.update rule
  invalidate_cache rule.app_id

unfoldable pub delete : String → Action (Unit {0})
delete id = do existing ← require id; Repository.delete id; invalidate_cache existing.app_id

unfoldable pub add_conditions : String → List RuleCondition → Action (Unit {0})
add_conditions rule_id cs = do
  rule ← require rule_id
  Repository.add_conditions rule_id cs
  invalidate_cache rule.app_id

unfoldable pub update_conditions : String → List RuleCondition → Action (Unit {0})
update_conditions rule_id cs = do
  rule ← require rule_id
  Repository.update_conditions rule_id cs
  invalidate_cache rule.app_id

unfoldable pub remove_conditions : String → Action (Unit {0})
remove_conditions rule_id = do
  rule ← require rule_id
  Repository.remove_conditions rule_id
  invalidate_cache rule.app_id

unfoldable pub get_conditions : String → Action (List RuleCondition)
get_conditions rule_id = do rule ← require rule_id; Repository.get_conditions rule_id
