-- ===== src/Plugin/Exemption.antt =====
-- internal/plugin/types/exemption.go: the manager of exemption rules. A request is the value with
-- the exemptions of the user and of all, of a type Q.
use lauth.Prelude.{String, Bool, false, Option, none, some, List, [], ◌∷◌, ◌++◌, if◌then◌else◌}
use lauth.Prelude.Int.{ℤ, ltb_ℤ}
use lauth.Prelude.Dict.{Dict, lookup, insert}

-- ExemptionResult
pub record ExemptionResult : Type 0 where
  pub exempt : Bool
  pub reason : String

-- What Match and the handlers return: a result, or an error.
pub data Match : Type 0 where
  failed : String → Match
  matched : ExemptionResult → Match

-- ExemptionRule
pub record ExemptionRule (Q : Type 0) : Type 0 where
  pub rule_type : String
  pub priority : ℤ
  pub match : Q → Match

abbrev pub not_exempt : Match
not_exempt = matched (record { exempt = false; reason = "" })

-- One round of the loop over the rules, with what the later rounds give.
abbrev pub after_match : Match → Match → Match
after_match (failed e) later = failed e
after_match (matched res) later = if res.exempt then matched res else later

-- ExemptionManager; a middleware makes a handler from the next one.
pub record ExemptionManager (Q : Type 0) : Type 0 where
  pub rules : Dict (List (ExemptionRule Q))
  pub middleware : List ((Q → Match) → Q → Match)

-- NewExemptionManager
abbrev pub new_exemption_manager : (Q : Type 0) → ExemptionManager Q
new_exemption_manager Q = record { rules = []; middleware = [] }

module _ {Q : Type 0} where
  abbrev pub rules_or_none : Option (List (ExemptionRule Q)) → List (ExemptionRule Q)
  rules_or_none none = []
  rules_or_none (some rs) = rs

  -- A rule appended to sorted rules, and these sorted again; rules of one priority may come in any
  -- order, and here the new one comes last.
  unfoldable pub insert_rule : ExemptionRule Q → List (ExemptionRule Q) → List (ExemptionRule Q)
  insert_rule r [] = r ∷ []
  insert_rule r (x ∷ xs) = if ltb_ℤ x.priority r.priority then r ∷ x ∷ xs else x ∷ insert_rule r xs

  -- AddRule
  unfoldable pub add_rule : ExemptionRule Q → ExemptionManager Q → ExemptionManager Q
  add_rule r m = record m {
    rules = insert r.rule_type (insert_rule r (rules_or_none (lookup r.rule_type m.rules))) m.rules;
  }

  -- AddMiddleware
  abbrev pub add_middleware : ((Q → Match) → Q → Match) → ExemptionManager Q → ExemptionManager Q
  add_middleware f m = record m { middleware = m.middleware ++ f ∷ [] }

  -- The handler that runs the rules in order.
  unfoldable pub run_rules : List (ExemptionRule Q) → Q → Match
  run_rules [] q = not_exempt
  run_rules (r ∷ rs) q = after_match (r.match q) (run_rules rs q)

  -- The middleware around a handler, the first one outermost.
  abbrev pub wrap : List ((Q → Match) → Q → Match) → (Q → Match) → Q → Match
  wrap [] handler = handler
  wrap (f ∷ fs) handler = f (wrap fs handler)

  -- CheckExemption with the rules of the type.
  abbrev pub check_rules : List (ExemptionRule Q) → List ((Q → Match) → Q → Match) → Q → Match
  check_rules [] middleware q = not_exempt
  check_rules (r ∷ rs) middleware q = wrap middleware (run_rules (r ∷ rs)) q

  -- CheckExemption
  unfoldable pub check_exemption : String → Q → ExemptionManager Q → Match
  check_exemption type q m = check_rules (rules_or_none (lookup type m.rules)) m.middleware q
