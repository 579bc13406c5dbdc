-- ===== src/Sessions/Decision.antt =====
-- What the loops of internal/service/verification_plugin.go decide.
use lauth.Prelude.{
  ◌≡◌, refl, sym, ap, ◌∙◌, inl, inr, Bool, true, false, not, ◌&&◌, Option, none, some, List, [],
  ◌∷◌, if◌then◌else◌, Bool-cases, All, All-mono,
}
use lauth.Sessions.Tables.{Env, Answer, ok, err}
use lauth.Sessions.Requirements.{Requirement}
use lauth.Sessions.Walk.{
  VerificationStatus, Walk, validate_loop, put_checked, put_skipped, answer_status, after_optional,
  after_walk, after_required, validate_requirements,
}

abbrev pub passed : Answer (Bool × Requirement) → Bool
passed (err e) = false
passed (ok (done, r)) = done

-- The check does not end in an error.
abbrev pub Answers : Answer (Bool × Requirement) → Type 0
Answers (err e) = ⊥
Answers (ok a) = Unit

-- What validateSinglePlugin may do to a requirement.
abbrev pub CheckOf : Requirement → Answer (Bool × Requirement) → Type 0
CheckOf r (err e) = Unit
CheckOf r (ok (true, s)) = s.required ≡ r.required
CheckOf r (ok (false, s)) = s ≡ r

-- The first of the chosen requirements that is not passed.
abbrev pub first_unpassed :
    (Requirement → Bool) → (Requirement → Bool) → List Requirement → Option Requirement
first_unpassed chosen pass [] = none
first_unpassed chosen pass (r ∷ rs) =
    if chosen r && not (pass r) then some r else first_unpassed chosen pass rs

abbrev pub or_else : Option Requirement → Option Requirement → Option Requirement
or_else none second = second
or_else (some r) second = some r

-- The plugin that is asked for next: a required one before the optional ones.
abbrev pub next_of : (Requirement → Bool) → List Requirement → Option Requirement
next_of pass rs =
    or_else (first_unpassed (λ r. r.required) pass rs)
      (first_unpassed (λ r. not r.required) pass rs)

abbrev pub is_none : Option Requirement → Bool
is_none none = true
is_none (some r) = false

-- The loop's answer is `w`, which says what it found.
abbrev Finds : (Requirement → Bool) → (Requirement → Bool) → List Requirement → Answer Walk → Type 0
Finds chosen pass rs (err e) = ⊥
Finds chosen pass rs (ok w) =
    (w.all_completed ≡ is_none w.first_open) × (w.first_open ≡ first_unpassed chosen pass rs)

put_checked-Finds :
    (chosen pass : Requirement → Bool) (r : Requirement) (rs : List Requirement)
    (c : Answer (Bool × Requirement)) (rest : Answer Walk)
    → chosen r ≡ true
    → pass r ≡ passed c
    → CheckOf r c
    → Answers c
    → Finds chosen pass rs rest
    → Finds chosen pass (r ∷ rs) (put_checked c rest)
put_checked-Finds chosen pass r rs (err e) rest ch p f a h = absurd a
put_checked-Finds chosen pass r rs (ok (done, s)) (err e) ch p f a h = absurd h
put_checked-Finds chosen pass r rs (ok (true, s)) (ok w) ch p f a h = simp (ch, p) h
put_checked-Finds chosen pass r rs (ok (false, s)) (ok w) ch p f a h = simp (ch, p, f) (refl, refl)

put_skipped-Finds :
    (chosen pass : Requirement → Bool) (r : Requirement) (rs : List Requirement)
    (rest : Answer Walk)
    → chosen r ≡ false
    → Finds chosen pass rs rest
    → Finds chosen pass (r ∷ rs) (put_skipped r rest)
put_skipped-Finds chosen pass r rs (err e) ch h = absurd h
put_skipped-Finds chosen pass r rs (ok w) ch h = simp ch h

answer_status_lem :
    (env : Env) (all : Bool) (next : Option Requirement) (rs : List Requirement)
    → ((answer_status env all next rs).completed_all ≡ (all && is_none next))
      × ((answer_status env all next rs).next_plugin ≡ next)
answer_status_lem env true none rs = (refl, refl)
answer_status_lem env true (some r) rs = (refl, refl)
answer_status_lem env false none rs = (refl, refl)
answer_status_lem env false (some r) rs = (refl, refl)

-- The walk through the required plugins leaves the optional ones as they are.
abbrev Leaves :
    (Requirement → Answer (Bool × Requirement)) → List Requirement → Answer Walk → Type 0
Leaves check rs (err e) = ⊥
Leaves check rs (ok w) =
    (first_unpassed (λ r. not r.required) (λ r. passed (check r)) w.walked
      ≡ first_unpassed (λ r. not r.required) (λ r. passed (check r)) rs)
    × All (λ r. not r.required ≡ true → Answers (check r)) w.walked

put_checked-Leaves :
    (check : Requirement → Answer (Bool × Requirement)) (r : Requirement) (rs : List Requirement)
    (c : Answer (Bool × Requirement)) (rest : Answer Walk)
    → r.required ≡ true
    → CheckOf r c
    → Answers c
    → Leaves check rs rest
    → Leaves check (r ∷ rs) (put_checked c rest)
put_checked-Leaves check r rs (err e) rest q f a h = absurd a
put_checked-Leaves check r rs (ok (done, s)) (err e) q f a h = absurd h
put_checked-Leaves check r rs (ok (true, s)) (ok w) q f a h =
    let same : s.required ≡ true = f ∙ q in simp (q, same) (h.0, (λ k. cc k, h.1))
put_checked-Leaves check r rs (ok (false, s)) (ok w) q f a h =
    let same : s.required ≡ true = ap (λ (r : Requirement). r.required) f ∙ q in
    simp (q, same) (h.0, (λ k. cc k, h.1))

put_skipped-Leaves :
    (check : Requirement → Answer (Bool × Requirement)) (r : Requirement) (rs : List Requirement)
    (rest : Answer Walk)
    → r.required ≡ false
    → Answers (check r)
    → Leaves check rs rest
    → Leaves check (r ∷ rs) (put_skipped r rest)
put_skipped-Leaves check r rs (err e) q a h = absurd h
put_skipped-Leaves check r rs (ok w) q a h = simp (q, h.0) (refl, (λ _. a, h.1))

-- The answer is completed when it asks for no plugin, and it asks for the first that is not passed.
abbrev pub Decided : (Requirement → Bool) → List Requirement → Answer VerificationStatus → Type 0
Decided pass rs (err e) = ⊥
Decided pass rs (ok st) =
    (st.completed_all ≡ is_none st.next_plugin) × (st.next_plugin ≡ next_of pass rs)

module _ (check : Requirement → Answer (Bool × Requirement))
    (faithful : (r : Requirement) → CheckOf r (check r)) where
  validate_loop-Finds :
      (chosen : Requirement → Bool) (rs : List Requirement)
      → All (λ r. chosen r ≡ true → Answers (check r)) rs
      → Finds chosen (λ r. passed (check r)) rs (validate_loop chosen check rs)
  unfolding validate_loop
  validate_loop-Finds chosen [] h = (refl, refl)
  validate_loop-Finds chosen (r ∷ rs) h = elim (Bool-cases (chosen r)) [
    | inl e ↦ simp e (
        put_checked-Finds chosen _ r rs (check r) _ e refl (faithful r) (h.0 e)
          (validate_loop-Finds chosen rs h.1))
    | inr e ↦ simp e (put_skipped-Finds chosen _ r rs _ e (validate_loop-Finds chosen rs h.1))
  ]

  validate_loop-Leaves :
      (rs : List Requirement)
      → All (λ r. Answers (check r)) rs
      → Leaves check rs (validate_loop (λ r. r.required) check rs)
  unfolding validate_loop
  validate_loop-Leaves [] h = (refl, tt)
  validate_loop-Leaves (r ∷ rs) h = elim (Bool-cases r.required) [
    | inl e ↦
        simp e (
          put_checked-Leaves check r rs (check r) _ e (faithful r) h.0
            (validate_loop-Leaves rs h.1))
    | inr e ↦ simp e (put_skipped-Leaves check r rs _ e h.0 (validate_loop-Leaves rs h.1))
  ]

  after_optional-Decided :
      (env : Env) (rs walked : List Requirement) (a : Answer Walk)
      → first_unpassed (λ r. r.required) (λ r. passed (check r)) rs ≡ none
      → first_unpassed (λ r. not r.required) (λ r. passed (check r)) walked
        ≡ first_unpassed (λ r. not r.required) (λ r. passed (check r)) rs
      → Finds (λ r. not r.required) (λ r. passed (check r)) walked a
      → Decided (λ r. passed (check r)) rs (after_optional env a)
  after_optional-Decided env rs walked (err e) n l h = absurd h
  after_optional-Decided env rs walked (ok w) n l h =
      let (all, next) = answer_status_lem env true w.first_open w.walked in
      simp (all, next, n) (refl, h.1 ∙ l)

  after_required-Decided :
      (env : Env) (rs : List Requirement) (a : Answer Walk)
      → Finds (λ r. r.required) (λ r. passed (check r)) rs a
      → Leaves check rs a
      → Decided (λ r. passed (check r)) rs (after_required env check a)
  after_required-Decided env rs (err e) h l = absurd h
  after_required-Decided env rs (ok w) h l = by_first w.all_completed w.first_open h.0 h.1
    where
      by_first :
          (all : Bool) (first : Option Requirement)
          → all ≡ is_none first
          → first ≡ first_unpassed (λ r. r.required) (λ r. passed (check r)) rs
          → Decided (λ r. passed (check r)) rs (after_walk env check all first w.walked)
      by_first true none e f =
          after_optional-Decided env rs w.walked _ (sym f) l.0
            (validate_loop-Finds (λ r. not r.required) w.walked l.1)
      by_first false none e f = cc e
      by_first true (some r) e f = cc e
      by_first false (some r) e f = simp (← f) (refl, refl)

  -- The answer is completed when it asks for no plugin, and it asks for the first one that is not
  -- passed, the required ones before the optional ones.
  pub validate_requirements-Decided :
      (env : Env) (rs : List Requirement)
      → All (λ r. Answers (check r)) rs
      → Decided (λ r. passed (check r)) rs (validate_requirements env check (ok rs))
  unfolding validate_requirements
  validate_requirements-Decided env rs h =
      after_required-Decided env rs _
        (validate_loop-Finds (λ r. r.required) rs (All-mono _ _ rs (λ r a _. a) h))
        (validate_loop-Leaves rs h)
