-- ===== src/Rules/Priority.antt =====
-- The rule that decides is one of highest priority among those of the application that grant.
use lauth.Prelude.{
  ℕ, String, ◌==◌, eq_iff, ◌≡◌, ◌⊎◌, inl, inr, ◌↔◌, Bool, true, ◌&&◌, none, List, [], ◌∷◌, arith,
  map, keep, All, Any, All-mono, All-keep_iff, All-map, All-self, Bool-cases,
}
use lauth.Prelude.Int.{◌≤ℤ◌, ltb_ℤ}
use lauth.Prelude.Dict.{Dict}
use lauth.Engine.Outcome.{ok}
use lauth.Engine.Value.{Value, str}
use lauth.Engine.Evaluate.{Rule, EngineResult, rule_result, default_deny, evaluate_rules}
use lauth.Engine.Decision.{Grants, First, evaluate_rules-Decides}
use lauth.Rules.Store.{Store}
use lauth.Rules.Repository.{insert_by_priority, sort_by_priority, active}
use lauth.Rules.Fresh.{with_own_conditions, loaded}

abbrev IsFalling : List Rule → Type 0
IsFalling [] = Unit
IsFalling (x ∷ xs) = All (λ y. y.priority ≤ℤ x.priority) xs × IsFalling xs

All-insert_iff :
    (P : Rule → Type 0) (r : Rule) (xs : List Rule)
    → All P (insert_by_priority r xs) ↔ (P r × All P xs)
unfolding insert_by_priority
All-insert_iff P r [] = ground arith
All-insert_iff P r (x ∷ xs) = ground (arith, All-insert_iff P r xs)

insert-IsFalling : (r : Rule) (xs : List Rule) → IsFalling xs → IsFalling (insert_by_priority r xs)
unfolding insert_by_priority
insert-IsFalling r [] h = (tt, tt)
insert-IsFalling r (x ∷ xs) h = elim (Bool-cases (ltb_ℤ r.priority x.priority)) [
  | inl e ↦ rw e (
    (All-insert_iff (λ y. y.priority ≤ℤ x.priority) r xs).1 (ground arith, h.0),
    insert-IsFalling r xs h.1,
  )
  | inr e ↦ rw e ((ground arith, All-mono _ _ xs (λ y k. ground arith) h.0), h)
]

sort-IsFalling : (xs : List Rule) → IsFalling (sort_by_priority xs)
unfolding sort_by_priority
sort-IsFalling [] = tt
sort-IsFalling (x ∷ xs) = insert-IsFalling x (sort_by_priority xs) (sort-IsFalling xs)

All-sort_iff : (P : Rule → Type 0) (xs : List Rule) → All P (sort_by_priority xs) ↔ All P xs
unfolding sort_by_priority
All-sort_iff P [] = (λ h. h, λ h. h)
All-sort_iff P (x ∷ xs) =
    let ins = All-insert_iff P x (sort_by_priority xs) in
    let ih = All-sort_iff P xs in (λ h. ((ins.0 h).0, ih.0 (ins.0 h).1), λ h. ins.1 (h.0, ih.1 h.1))

pub All-active_iff :
    (P : Rule → Type 0) (app : String) (xs : List Rule)
    → All P (active app xs) ↔ All (λ x. (x.app_id == app && x.is_enabled) ≡ true → P x) xs
unfolding active
All-active_iff P app xs =
    let s = All-sort_iff P (keep (λ r. r.app_id == app && r.is_enabled) xs) in
    let k = All-keep_iff P (λ r. r.app_id == app && r.is_enabled) xs in
    (λ h. k.0 (s.0 h), λ h. s.1 (k.1 h))

module _ (sprint : Value → String) (plain : (s : String) → sprint (str s) ≡ s) (now : ℕ)
    (cancelled : Rule → Bool) (app : String) (d : Dict Value) (s : Store) where
  -- A row of the table, with its conditions, grants for the application.
  abbrev pub Eligible : Rule → Type 0
  Eligible x = (x.app_id ≡ app) × Grants sprint plain now cancelled d (with_own_conditions s x)

  abbrev pub IsTop : Rule → Type 0
  IsTop x =
      Eligible x
      × Any (λ z. z ≡ x) s.rules
      × All (λ y. Eligible y → y.priority ≤ℤ x.priority) s.rules

  First-top :
      (P : Rule → Type 0) (xs : List Rule) (r : Rule)
      → IsFalling xs
      → All P xs
      → First sprint plain now cancelled d (map (with_own_conditions s) xs) r
      → (x : Rule) × (r ≡ with_own_conditions s x)
        × P x
        × Grants sprint plain now cancelled d (with_own_conditions s x)
        × All
            (λ y.
              Grants sprint plain now cancelled d (with_own_conditions s y)
              → y.priority ≤ℤ x.priority)
            xs
  First-top P [] r f h first = absurd first
  First-top P (x ∷ xs) r f h (inl (g, e)) =
      (x, e, h.0, g, (λ _. omega arith, All-mono _ _ xs (λ y k _. k) f.0))
  First-top P (x ∷ xs) r f h (inr (n, later)) =
      let (y, e, p, g, top) = First-top P xs r f.1 h.1 later in
      (y, e, p, g, (λ k. absurd (n k), top))

  -- A row of the table that belongs to the application.
  abbrev RowOf : Rule → Type 0
  RowOf x = Any (λ z. z ≡ x) s.rules × (x.app_id ≡ app)

  rows : All RowOf (active app s.rules)
  rows =
      (All-active_iff RowOf app s.rules).1 (
        All-mono _ _ s.rules (λ x h k. (h, ground (arith, eq_iff x.app_id app))) (All-self s.rules))

  active-IsFalling : IsFalling (active app s.rules)
  unfolding active
  active-IsFalling = sort-IsFalling (keep (λ r. r.app_id == app && r.is_enabled) s.rules)

  is_active : (x : Rule) → Eligible x → (x.app_id == app && x.is_enabled) ≡ true
  is_active x (e, g) = ground (arith, eq_iff x.app_id app)

  -- What holds of the active rules that grant holds of every eligible row.
  to_rows :
      (Q : Rule → Type 0)
      → All
          (λ y. Grants sprint plain now cancelled d (with_own_conditions s y) → Q y)
          (active app s.rules)
      → All (λ y. Eligible y → Q y) s.rules
  to_rows Q h =
      All-mono _ _ s.rules (λ y k e. k (is_active y e) e.1) ((All-active_iff _ app s.rules).0 h)

  -- The decision over the loaded rules is made by a row of the table that belongs to the
  -- application, grants, and has the highest priority among such rows; it is the default denial
  -- exactly when the table holds no such row.
  pub loaded-IsTop :
      (res : EngineResult) × (evaluate_rules sprint now cancelled (loaded app s) d ≡ ok res)
      × (((x : Rule) × IsTop x
            × (res ≡ rule_result sprint now cancelled (with_own_conditions s x) d true none))
          ⊎ ((res ≡ default_deny sprint now cancelled d) × All (λ x. ¬ (Eligible x)) s.rules))
  loaded-IsTop =
      let (res, e, dec) = evaluate_rules-Decides sprint plain now cancelled d (loaded app s) in
      (
        res,
        e,
        elim dec [
          | inl (r, is_r, first) ↦
              let (x, same, p, g, top) =
                First-top RowOf (active app s.rules) r active-IsFalling rows first in
              inl
                (x, ((p.1, g), p.0, to_rows (λ y. y.priority ≤ℤ x.priority) top), rw (← same) is_r)
          | inr (deny, no_grant) ↦ inr (
            deny,
            to_rows (λ _. ⊥) (All-map _ (with_own_conditions s) (active app s.rules) no_grant),
          )
        ],
      )
