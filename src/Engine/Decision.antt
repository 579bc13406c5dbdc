-- ===== src/Engine/Decision.antt =====
-- The decision over a list of rules: the first rule that grants is the answer, and without one
-- the answer is no.
use lauth.Prelude.{
  ℕ, String, ◌≡◌, ◌≢◌, ◌⊎◌, ◌↔◌, ◌∙◌, inl, inr, refl, Bool, true, false, none, List, [], ◌∷◌, All,
  if◌then◌else◌, Bool-cases,
}
use lauth.Prelude.Dict.{Dict}
use lauth.Engine.Outcome.{Outcome, ok, err, panic, ◌>>=◌, execution_cancelled}
use lauth.Engine.Value.{Value, str}
use lauth.Engine.Expression.{Expression, evaluate}
use lauth.Engine.Parser.{parse}
use lauth.Engine.Evaluate.{
  Rule, EngineResult, RuleCheck, returned, rule_result, rule_check, evaluate_rule, default_deny,
  round, evaluate_rules,
}
use lauth.Engine.Semantics.{AllHold, parse-Agrees}

module _ (sprint : Value → String) (plain : (s : String) → sprint (str s) ≡ s) (now : ℕ)
    (cancelled : Rule → Bool) where
  -- The rule is enabled, its context is live, and all its conditions hold.
  abbrev pub Grants : Dict Value → Rule → Type 0
  Grants d r = (r.is_enabled ≡ true) × (cancelled r ≡ false) × AllHold sprint plain d r.conditions

  abbrev pub First : Dict Value → List Rule → Rule → Type 0
  First d [] r = ⊥
  First d (x ∷ xs) r = (Grants d x × (r ≡ x)) ⊎ ((¬ (Grants d x)) × First d xs r)

  abbrev pub Decides : Dict Value → List Rule → EngineResult → Type 0
  Decides d rs res =
      ((r : Rule) × (res ≡ rule_result sprint now cancelled r d true none) × First d rs r)
      ⊎ ((res ≡ default_deny sprint now cancelled d) × All (λ r. ¬ (Grants d r)) rs)

  -- What a rule's check leads to, where `c` tells whether the context is done.
  abbrev Settles : Bool → Dict Value → Rule → RuleCheck → Type 0
  Settles c d r check =
      ((c ≡ false)
        × AllHold sprint plain d r.conditions
        × (check ≡ returned (rule_result sprint now cancelled r d true none) none))
      ⊎ ((¬ ((c ≡ false) × AllHold sprint plain d r.conditions))
          × ((rest : Outcome EngineResult) → round sprint now cancelled check rest ≡ rest))

  outcome-Settles :
      (d : Dict Value) (r : Rule) (o : Outcome Bool)
      → ((o ≡ ok true) ↔ AllHold sprint plain d r.conditions) × (o ≢ panic)
      → Settles false d r (rule_check sprint now cancelled r d o)
  outcome-Settles d r (ok true) h = inl (refl, h.0.0 refl, refl)
  outcome-Settles d r (ok false) h = inr (λ k. cc (h.0.1 k.1), λ rest. refl)
  outcome-Settles d r (err x) h = inr (λ k. cc (h.0.1 k.1), λ rest. refl)
  outcome-Settles d r panic h = absurd (h.1 refl)

  parsed-Settles :
      (c : Bool) (d : Dict Value) (r : Rule) (p : Outcome Expression)
      → (((do e ← p; evaluate sprint e d) ≡ ok true) ↔ AllHold sprint plain d r.conditions)
        × ((do e ← p; evaluate sprint e d) ≢ panic)
      → Settles c d r (
          rule_check sprint now cancelled r d
            (do e ← p; if c then err execution_cancelled else evaluate sprint e d))
  parsed-Settles true d r (ok e) h = inr (λ k. cc k.0, λ rest. refl)
  parsed-Settles false d r (ok e) h = outcome-Settles d r (evaluate sprint e d) h
  parsed-Settles c d r (err x) h = inr (λ k. cc (h.0.1 k.1), λ rest. refl)
  parsed-Settles c d r panic h = absurd (h.1 refl)

  rule-Settles :
      (d : Dict Value) (r : Rule)
      → Settles (cancelled r) d r (evaluate_rule sprint now cancelled r d)
  unfolding evaluate_rule
  rule-Settles d r =
      parsed-Settles (cancelled r) d r (parse r.conditions)
        (parse-Agrees sprint plain r.conditions d)

  -- The later rules' answer, once the first one does not grant.
  Decides-skip :
      (d : Dict Value) (r : Rule) (rs : List Rule) (res : EngineResult)
      → ¬ (Grants d r)
      → Decides d rs res
      → Decides d (r ∷ rs) res
  Decides-skip d r rs res n (inl (x, e, f)) = inl (x, e, inr (n, f))
  Decides-skip d r rs res n (inr (e, f)) = inr (e, (n, f))

  -- Whatever the rules and the data, the evaluation ends without an error or a panic: the answer
  -- is that of the first rule in the list that is enabled, not cancelled and satisfied, and is the
  -- default denial exactly when there is no such rule.
  pub evaluate_rules-Decides :
      (d : Dict Value) (rs : List Rule)
      → (res : EngineResult) × (evaluate_rules sprint now cancelled rs d ≡ ok res)
        × Decides d rs res
  unfolding evaluate_rules
  evaluate_rules-Decides d [] = (default_deny sprint now cancelled d, refl, inr (refl, tt))
  evaluate_rules-Decides d (r ∷ rs) =
      let (res, e, dec) = evaluate_rules-Decides d rs in
      elim (Bool-cases r.is_enabled) [
        | inl enabled ↦ elim (rule-Settles d r) [
          | inl (live, hold, checked) ↦ (
            rule_result sprint now cancelled r d true none,
            simp (enabled, checked),
            inl (r, refl, inl ((enabled, live, hold), refl)),
          )
          | inr (n, skip) ↦
              (res, simp enabled (skip _ ∙ e), Decides-skip d r rs res (λ g. n (g.1, g.2)) dec)
        ]
        | inr disabled ↦ (res, simp disabled e, Decides-skip d r rs res (λ g. cc g.0) dec)
      ]
