-- ===== src/Sessions/Verdict.antt =====
-- The answer of ValidatePluginStatusBySession in internal/service/verification_plugin.go.
use lauth.Prelude.{
  ◌≡◌, refl, ◌⊎◌, inl, inr, ◌↔◌, Bool, true, false, not, ◌&&◌, Option, none, some, List, [], ◌∷◌,
  if◌then◌else◌, arith, All, All-mono,
}
use lauth.Sessions.Tables.{VerificationSession, PluginStatus, Env, Answer, ok, err}
use lauth.Sessions.Status.{Manager}
use lauth.Sessions.Requirements.{Requirement, get_required_plugins}
use lauth.Sessions.Walk.{VerificationStatus}
use lauth.Sessions.Validation.{asked_user, validate_session}
use lauth.Sessions.Decision.{
  Answers, first_unpassed, next_of, or_else, is_none, Decided, validate_requirements-Decided,
}
use lauth.Sessions.Satisfied.{Satisfied, check_listed, check_listed_iff, check_listed-CheckOf}

-- `r` is the first of the chosen requirements that does not have `S`.
abbrev pub FirstOpen :
    (Requirement → Bool) → (Requirement → Type 0) → List Requirement → Requirement → Type 0
FirstOpen chosen S [] r = ⊥
FirstOpen chosen S (q ∷ qs) r =
    ((q ≡ r) × (chosen r ≡ true) × (S r → ⊥)) ⊎ ((chosen q ≡ true → S q) × FirstOpen chosen S qs r)

-- The requirement that is asked for next: the first required one that is open, else the first
-- optional one; and none when all requirements have `S`.
abbrev pub AsksFor : (Requirement → Type 0) → List Requirement → Option Requirement → Type 0
AsksFor S rs none = All S rs
AsksFor S rs (some r) =
    FirstOpen (λ q. q.required) S rs r
    ⊎ (All (λ q. q.required ≡ true → S q) rs × FirstOpen (λ q. not q.required) S rs r)

-- The answer says rightly whether all requirements have `S` and which is next.
abbrev pub Verdict : (Requirement → Type 0) → List Requirement → Answer VerificationStatus → Type 0
Verdict S rs (err e) = ⊥
Verdict S rs (ok st) = ((st.completed_all ≡ true) ↔ All S rs) × AsksFor S rs st.next_plugin

abbrev Unpassed :
    (Requirement → Bool) → (Requirement → Type 0) → List Requirement → Option Requirement → Type 0
Unpassed chosen S rs none = All (λ q. chosen q ≡ true → S q) rs
Unpassed chosen S rs (some r) = FirstOpen chosen S rs r

module _ (pass : Requirement → Bool) (S : Requirement → Type 0)
    (pass_iff : (r : Requirement) → (pass r ≡ true) ↔ S r) where
  Unpassed-skip :
      (chosen : Requirement → Bool) (r : Requirement) (rs : List Requirement)
      (o : Option Requirement)
      → (chosen r ≡ true → S r)
      → Unpassed chosen S rs o
      → Unpassed chosen S (r ∷ rs) o
  Unpassed-skip chosen r rs none f h = (f, h)
  Unpassed-skip chosen r rs (some q) f h = inr (f, h)

  Unpassed-step :
      (chosen : Requirement → Bool) (r : Requirement) (rs : List Requirement) (c p : Bool)
      (o : Option Requirement)
      → chosen r ≡ c
      → pass r ≡ p
      → Unpassed chosen S rs o
      → Unpassed chosen S (r ∷ rs) (if c && not p then some r else o)
  Unpassed-step chosen r rs true false o e f h =
      inl (refl, e, λ s. let g : pass r ≡ true = (pass_iff r).1 s in cc)
  Unpassed-step chosen r rs true true o e f h =
      Unpassed-skip chosen r rs o (λ _. (pass_iff r).0 f) h
  Unpassed-step chosen r rs false p o e f h = Unpassed-skip chosen r rs o (λ k. cc) h

  first_unpassed_lem :
      (chosen : Requirement → Bool) (rs : List Requirement)
      → Unpassed chosen S rs (first_unpassed chosen pass rs)
  first_unpassed_lem chosen [] = tt
  first_unpassed_lem chosen (r ∷ rs) =
      Unpassed-step chosen r rs (chosen r) (pass r) _ refl refl (first_unpassed_lem chosen rs)

  All-both :
      (rs : List Requirement)
      → All (λ q. q.required ≡ true → S q) rs
      → All (λ q. not q.required ≡ true → S q) rs
      → All S rs
  All-both [] h k = tt
  All-both (r ∷ rs) h k = (ground (arith, h.0, k.0), All-both rs h.1 k.1)

  next_of-AsksFor : (rs : List Requirement) → AsksFor S rs (next_of pass rs)
  next_of-AsksFor rs =
      by_first _ _ (first_unpassed_lem (λ r. r.required) rs)
        (first_unpassed_lem (λ r. not r.required) rs)
    where
      by_first :
          (first second : Option Requirement)
          → Unpassed (λ r. r.required) S rs first
          → Unpassed (λ r. not r.required) S rs second
          → AsksFor S rs (or_else first second)
      by_first none none h k = All-both rs h k
      by_first none (some r) h k = inr (h, k)
      by_first (some r) second h k = inl h

  FirstOpen-open :
      (chosen : Requirement → Bool) (rs : List Requirement) (r : Requirement)
      → FirstOpen chosen S rs r
      → All S rs
      → ⊥
  FirstOpen-open chosen [] r h all = h
  FirstOpen-open chosen (q ∷ qs) r (inl (same, c, unmet)) all = unmet (rw (← same) all.0)
  FirstOpen-open chosen (q ∷ qs) r (inr (s, h)) all = FirstOpen-open chosen qs r h all.1

  Decided-Verdict :
      (rs : List Requirement) (a : Answer VerificationStatus) → Decided pass rs a → Verdict S rs a
  Decided-Verdict rs (err e) h = h
  Decided-Verdict rs (ok st) h =
      let asks : AsksFor S rs st.next_plugin = rw h.1 (next_of-AsksFor rs) in
      (rw h.0 (by_next st.next_plugin asks), asks)
    where
      by_next : (o : Option Requirement) → AsksFor S rs o → (is_none o ≡ true) ↔ All S rs
      by_next none asks = (λ _. asks, λ _. refl)
      by_next (some r) (inl f) = (λ k. cc, λ all. absurd (FirstOpen-open _ rs r f all))
      by_next (some r) (inr (req, f)) = (λ k. cc, λ all. absurd (FirstOpen-open _ rs r f all))

module _ (S T : Requirement → Type 0) (both : (r : Requirement) → S r ↔ T r) where
  FirstOpen-both :
      (chosen : Requirement → Bool) (rs : List Requirement) (r : Requirement)
      → FirstOpen chosen S rs r
      → FirstOpen chosen T rs r
  FirstOpen-both chosen [] r h = h
  FirstOpen-both chosen (q ∷ qs) r (inl (e, c, n)) = inl (e, c, λ t. n ((both r).1 t))
  FirstOpen-both chosen (q ∷ qs) r (inr (f, h)) =
      inr (λ c. (both q).0 (f c), FirstOpen-both chosen qs r h)

  AsksFor-both : (rs : List Requirement) (o : Option Requirement) → AsksFor S rs o → AsksFor T rs o
  AsksFor-both rs none h = All-mono S T rs (λ r. (both r).0) h
  AsksFor-both rs (some r) (inl h) = inl (FirstOpen-both _ rs r h)
  AsksFor-both rs (some r) (inr (a, h)) =
      inr (All-mono _ _ rs (λ q f c. (both q).0 (f c)) a, FirstOpen-both _ rs r h)

  pub Verdict-both :
      (rs : List Requirement) (a : Answer VerificationStatus) → Verdict S rs a → Verdict T rs a
  Verdict-both rs (err e) h = h
  Verdict-both rs (ok st) ((to, from), asks) = (
    (
      λ e. All-mono S T rs (λ r. (both r).0) (to e),
      λ a. from (All-mono T S rs (λ r. (both r).1) a),
    ),
    AsksFor-both rs st.next_plugin asks,
  )

module _ {C : Type 0} where
  -- Where the requirements of the session are listed and no plugin fails, there is an answer. It
  -- is completed exactly when every requirement is satisfied: the status of its plugin that the
  -- database lists last is completed, or the plugin is missing, has nothing to verify or accepts
  -- that status. Else it asks for the first required plugin that is not satisfied, or, when all
  -- required ones are, for the first optional one that is not. The database lists the statuses in
  -- any order.
  pub validate_session-Verdict :
      (env : Env) (mgr : Manager C) (s : VerificationSession C) (listed : List PluginStatus)
      (rs : List Requirement)
      → get_required_plugins mgr s.app_id s.action s.context (asked_user s s.user_id) ≡ ok rs
      → All (λ r. Answers (check_listed mgr s listed r)) rs
      → Verdict (Satisfied mgr s listed) rs (validate_session env mgr s listed)
  unfolding validate_session
  validate_session-Verdict env mgr s listed rs required answers = rw required (
      Decided-Verdict _ _ (check_listed_iff mgr s listed) rs _
        (validate_requirements-Decided _ (check_listed-CheckOf mgr s listed) env rs answers))
