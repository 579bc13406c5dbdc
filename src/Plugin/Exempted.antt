-- ===== src/Plugin/Exempted.antt =====
-- Which rule of internal/plugin/types/exemption.go grants an exemption.
use lauth.Prelude.{
  String, ◌==◌, eq_iff, ◌≡◌, refl, sym, ap, ◌∙◌, ◌⊎◌, ◌↔◌, inl, inr, Bool, true, false, List, [],
  ◌∷◌, arith, All, Any, All-mono, Any-mono, if◌then◌else◌, Bool-cases, text-cases,
}
use lauth.Prelude.Int.{◌≤ℤ◌, ◌<ℤ◌, ltb_ℤ}
use lauth.Prelude.Dict.{lookup, lookup-insert}
use lauth.Plugin.Exemption.{
  ExemptionResult, Match, failed, matched, ExemptionRule, ExemptionManager, new_exemption_manager,
  rules_or_none, insert_rule, add_rule, after_match, run_rules, check_rules, check_exemption,
}

abbrev exempt_of : Match → Bool
exempt_of (failed e) = false
exempt_of (matched res) = res.exempt

module _ {Q : Type 0} where
  abbrev IsFalling : List (ExemptionRule Q) → Type 0
  IsFalling [] = Unit
  IsFalling (x ∷ xs) = All (λ y. y.priority ≤ℤ x.priority) xs × IsFalling xs

  All-insert_iff :
      (P : ExemptionRule Q → Type 0) (r : ExemptionRule Q) (xs : List (ExemptionRule Q))
      → All P (insert_rule r xs) ↔ (P r × All P xs)
  unfolding insert_rule
  All-insert_iff P r [] = ground arith
  All-insert_iff P r (x ∷ xs) = ground (arith, All-insert_iff P r xs)

  Any-insert :
      (P : ExemptionRule Q → Type 0) (r : ExemptionRule Q) (xs : List (ExemptionRule Q))
      → Any P (insert_rule r xs)
      → P r ⊎ Any P xs
  unfolding insert_rule
  Any-insert P r [] h = h
  Any-insert P r (x ∷ xs) h = ground (arith, Any-insert P r xs)

  insert-IsFalling :
      (r : ExemptionRule Q) (xs : List (ExemptionRule Q))
      → IsFalling xs
      → IsFalling (insert_rule r xs)
  unfolding insert_rule
  insert-IsFalling r [] h = (tt, tt)
  insert-IsFalling r (x ∷ xs) h = elim (Bool-cases (ltb_ℤ x.priority r.priority)) [
    | inl e ↦ simp e ((ground arith, All-mono _ _ xs (λ y k. ground arith) h.0), h)
    | inr e ↦ simp e (
      (All-insert_iff (λ y. y.priority ≤ℤ x.priority) r xs).1 (ground arith, h.0),
      insert-IsFalling r xs h.1,
    )
  ]

  abbrev pub add_rules : List (ExemptionRule Q) → ExemptionManager Q → ExemptionManager Q
  add_rules [] m = m
  add_rules (r ∷ rs) m = add_rules rs (add_rule r m)

  abbrev rules_for : String → ExemptionManager Q → List (ExemptionRule Q)
  rules_for type m = rules_or_none (lookup type m.rules)

  rules_for-add :
      (type : String) (r : ExemptionRule Q) (m : ExemptionManager Q)
      → rules_for type (add_rule r m)
        ≡ (if r.rule_type == type then insert_rule r (rules_for type m) else rules_for type m)
  unfolding add_rule
  rules_for-add type r m = ground (
    arith,
    eq_iff r.rule_type type,
    lookup-insert type r.rule_type (insert_rule r (rules_for r.rule_type m)) m.rules,
  )

  -- The rule neither fails nor exempts.
  abbrev pub Passes : Q → ExemptionRule Q → Type 0
  Passes q r = (res : ExemptionResult) × (r.match q ≡ matched res) × (res.exempt ≡ false)

  -- The rule gives the result, and the rules of the list with a higher priority pass.
  abbrev Grants : Q → ExemptionResult → List (ExemptionRule Q) → ExemptionRule Q → Type 0
  Grants q res rs r =
      (r.match q ≡ matched res) × All (λ s. r.priority <ℤ s.priority → Passes q s) rs

  one_round :
      (q : Q) (x : ExemptionRule Q) (o later : Match) (res : ExemptionResult)
      → x.match q ≡ o
      → after_match o later ≡ matched res
      → (x.match q ≡ matched res) ⊎ (Passes q x × (later ≡ matched res))
  one_round q x (failed t) later res same e = cc
  one_round q x (matched r) later res same e = elim (Bool-cases r.exempt) [
    | inl k ↦ inl (same ∙ (simp k at e))
    | inr k ↦ inr ((r, same, k), simp k at e)
  ]

  not_above :
      (q : Q) (x : ExemptionRule Q) (xs : List (ExemptionRule Q))
      → All (λ y. y.priority ≤ℤ x.priority) xs
      → All (λ s. x.priority <ℤ s.priority → Passes q s) (x ∷ xs)
  not_above q x xs h = (
    (λ k. absurd (omega (arith, k))),
    All-mono _ _ xs (λ y le lt. absurd (omega (arith, le, lt))) h,
  )

  run_rules-Grants :
      (q : Q) (res : ExemptionResult) (xs : List (ExemptionRule Q))
      → IsFalling xs
      → run_rules xs q ≡ matched res
      → res.exempt ≡ true
      → Any (Grants q res xs) xs
  unfolding run_rules
  run_rules-Grants q res [] falling e exempt = ground (arith, ap exempt_of e)
  run_rules-Grants q res (x ∷ xs) falling e exempt =
      elim (one_round q x (x.match q) (run_rules xs q) res refl e) [
        | inl here ↦ inl (here, not_above q x xs falling.0)
        | inr (passes, later) ↦ inr (
            Any-mono _ _ xs (λ r g. (g.0, ((λ _. passes), g.1)))
              (run_rules-Grants q res xs falling.1 later exempt))
      ]

  -- What the manager holds of a type, in terms of the rules that were added.
  All-rules_for :
      (P : ExemptionRule Q → Type 0) (type : String) (rs : List (ExemptionRule Q))
      (m : ExemptionManager Q)
      → All P (rules_for type (add_rules rs m))
      → All P (rules_for type m) × All (λ r. r.rule_type ≡ type → P r) rs
  All-rules_for P type [] m h = (h, tt)
  All-rules_for P type (r ∷ rs) m h =
      let (now, later) = All-rules_for P type rs (add_rule r m) h in
      let added = rules_for-add type r m in
      elim (text-cases r.rule_type type) [
        | inl e ↦
            let k =
              (All-insert_iff P r (rules_for type m)).0
                (rw (added, (eq_iff r.rule_type type).1 e) at now) in
            (k.1, ((λ _. k.0), later))
        | inr n ↦ (rw (added, n.1) at now, ((λ e. absurd (n.0 e)), later))
      ]

  Any-rules_for :
      (P : ExemptionRule Q → Type 0) (type : String) (rs : List (ExemptionRule Q))
      (m : ExemptionManager Q)
      → Any P (rules_for type (add_rules rs m))
      → Any P (rules_for type m) ⊎ Any (λ r. (r.rule_type ≡ type) × P r) rs
  Any-rules_for P type [] m h = inl h
  Any-rules_for P type (r ∷ rs) m h = elim (Any-rules_for P type rs (add_rule r m) h) [
    | inr later ↦ inr (inr later)
    | inl now ↦ elim (text-cases r.rule_type type) [
      | inl e ↦
          elim (Any-insert P r (rules_for type m)
            (rw (rules_for-add type r m, (eq_iff r.rule_type type).1 e) at now)) [
              | inl here ↦ inr (inl (e, here))
              | inr old ↦ inl old
            ]
      | inr n ↦ inl (rw (rules_for-add type r m, n.1) at now)
    ]
  ]

  rules_for-IsFalling :
      (type : String) (rs : List (ExemptionRule Q)) (m : ExemptionManager Q)
      → IsFalling (rules_for type m)
      → IsFalling (rules_for type (add_rules rs m))
  rules_for-IsFalling type [] m h = h
  rules_for-IsFalling type (r ∷ rs) m h =
      rules_for-IsFalling type rs (add_rule r m) (elim (text-cases r.rule_type type) [
        | inl e ↦
            rw (rules_for-add type r m, (eq_iff r.rule_type type).1 e)
              (insert-IsFalling r (rules_for type m) h)
        | inr n ↦ rw (rules_for-add type r m, n.1) h
      ])

  check_rules-run : (xs : List (ExemptionRule Q)) (q : Q) → check_rules xs [] q ≡ run_rules xs q
  unfolding run_rules
  check_rules-run [] q = refl
  check_rules-run (x ∷ xs) q = refl

middleware-add :
    {Q : Type 0} (rs : List (ExemptionRule Q)) (m : ExemptionManager Q)
    → (add_rules rs m).middleware ≡ m.middleware
unfolding add_rule
middleware-add [] m = refl
middleware-add (r ∷ rs) m = middleware-add rs (add_rule r m)

-- When a new manager without middleware grants an exemption, one of the added rules of the type
-- grants it, and every rule of the type with a higher priority was asked and neither failed nor
-- granted, in whatever order the rules were added.
pub check_exemption-grants :
    {Q : Type 0} (type : String) (q : Q) (rs : List (ExemptionRule Q)) (res : ExemptionResult)
    → check_exemption type q (add_rules rs (new_exemption_manager Q)) ≡ matched res
    → res.exempt ≡ true
    → Any
        (λ r.
          (r.rule_type ≡ type)
          × (r.match q ≡ matched res)
          × All (λ s. s.rule_type ≡ type → r.priority <ℤ s.priority → Passes q s) rs)
        rs
unfolding check_exemption lookup
check_exemption-grants {Q} type q rs res e exempt =
    let m = add_rules rs (new_exemption_manager Q) in
    let xs = rules_for type m in
    let ran : run_rules xs q ≡ matched res =
      sym (check_rules-run xs q)
      ∙ ap (λ fs. check_rules xs fs q) (sym (middleware-add rs (new_exemption_manager Q)))
      ∙ e in
    let granted =
      run_rules-Grants q res xs (rules_for-IsFalling type rs (new_exemption_manager Q) tt) ran
        exempt in
    elim (Any-rules_for (Grants q res xs) type rs (new_exemption_manager Q) granted) [
      | inl none_yet ↦ absurd none_yet
      | inr h ↦
          Any-mono _ _ rs
            (λ r k. (
              k.0,
              k.1.0,
              (All-rules_for (λ s. r.priority <ℤ s.priority → Passes q s) type rs
                  (new_exemption_manager Q) k.1.1).1,
            ))
            h
    ]
