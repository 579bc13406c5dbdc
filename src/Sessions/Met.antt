-- ===== src/Sessions/Met.antt =====
-- Which requirements of internal/service/verification_plugin.go are met, when every status that
-- was saved for the session is completed, and how many are not.
use lauth.Prelude.{
  ℕ, ◌+◌, ◌≤◌, ◌<◌, String, ◌≡◌, refl, ap, ◌∙◌, inl, inr, Bool, true, false, ◌||◌, Option, none,
  some, List, [], ◌∷◌, if◌then◌else◌, Bool-cases, Option-cases, length, arith, All, Any,
}
use lauth.Prelude.Dict.{lookup}
use lauth.Sessions.Tables.{VerificationSession, PluginStatus}
use lauth.Sessions.Status.{Verifiable, Plugin, Manager}
use lauth.Sessions.Requirements.{Requirement}
use lauth.Sessions.Validation.{
  build_status_maps, by_plugin, validate, validate_single, has_completed,
}
use lauth.Sessions.Decision.{Answers}
use lauth.Sessions.Satisfied.{
  latest, if_none, IsDone, Accepted, PluginAccepts, Satisfied, check_listed,
  build_status_maps-latest, status_in,
}
use lauth.Sessions.Verdict.{FirstOpen}
use lauth.Sessions.Rows.{IsCompleted, has_row, latest-none, latest-IsDone}

-- How many requirements do not pass a test.
abbrev pub open_count : (Requirement → Bool) → List Requirement → ℕ
open_count pass [] = 0
open_count pass (r ∷ rs) = (if pass r then 0 else 1) + open_count pass rs

pub open_count_mono :
    (p q : Requirement → Bool) (rs : List Requirement)
    → ((r : Requirement) → p r ≡ true → q r ≡ true)
    → open_count q rs ≤ open_count p rs
open_count_mono p q [] f = omega arith
open_count_mono p q (r ∷ rs) f = ground (arith, f r, open_count_mono p q rs f)

pub open_count_less :
    (p q : Requirement → Bool) (rs : List Requirement) (r : Requirement)
    → ((r : Requirement) → p r ≡ true → q r ≡ true)
    → Any (λ x. x ≡ r) rs
    → p r ≡ false
    → q r ≡ true
    → open_count q rs < open_count p rs
open_count_less p q [] r f a c d = absurd a
open_count_less p q (x ∷ xs) r f (inl e) c d =
    let c' : p x ≡ false = ap p e ∙ c in
    let d' : q x ≡ true = ap q e ∙ d in ground (arith, open_count_mono p q xs f)
open_count_less p q (x ∷ xs) r f (inr a) c d = ground (arith, f x, open_count_less p q xs r f a c d)

pub open_count-zero :
    (p : Requirement → Bool) (rs : List Requirement)
    → open_count p rs ≤ 0
    → All (λ r. p r ≡ true) rs
open_count-zero p [] h = tt
open_count-zero p (r ∷ rs) h = (ground arith, open_count-zero p rs (ground arith))

pub open_count_le : (p : Requirement → Bool) (rs : List Requirement) → open_count p rs ≤ length rs
open_count_le p [] = omega arith
open_count_le p (r ∷ rs) = ground (arith, open_count_le p rs)

pub zero-open_count :
    (p : Requirement → Bool) (rs : List Requirement)
    → All (λ r. p r ≡ true) rs
    → open_count p rs ≡ 0
zero-open_count p [] h = refl
zero-open_count p (r ∷ rs) h = ground (arith, h.0, zero-open_count p rs h.1)

pub FirstOpen-member :
    (chosen : Requirement → Bool) (S : Requirement → Type 0) (rs : List Requirement)
    (r : Requirement)
    → FirstOpen chosen S rs r
    → Any (λ x. x ≡ r) rs × (S r → ⊥)
FirstOpen-member chosen S [] r h = absurd h
FirstOpen-member chosen S (x ∷ xs) r (inl (e, c, n)) = (inl e, n)
FirstOpen-member chosen S (x ∷ xs) r (inr (c, h)) =
    let (a, n) = FirstOpen-member chosen S xs r h in (inr a, n)

abbrev is_absent : {A : Type 0} → Option A → Bool
is_absent none = true
is_absent (some a) = false

module _ {C : Type 0} where
  abbrev no_need : Option (Plugin C) → Bool
  no_need none = true
  no_need (some p) = is_absent p.verifiable

  -- The requirement has a row, or needs none.
  abbrev pub met : Manager C → String → List PluginStatus → Requirement → Bool
  met mgr app rows r = has_row r.name rows || no_need (mgr.get_plugin app r.name)

  -- GetPlugin gives the plugin of the name that it is asked for.
  abbrev pub IsNamed : Manager C → String → Type 0
  IsNamed mgr app =
      (name : String) (p : Plugin C) → mgr.get_plugin app name ≡ some p → p.name ≡ name

  absent-Accepted :
      (user action : String) (v : Option (Verifiable C)) (row : Option PluginStatus)
      → is_absent v ≡ true
      → Accepted user action v row
  absent-Accepted user action none row h = tt
  absent-Accepted user action (some v) row h = absurd (cc h)

  Accepted-absent :
      (user action : String) (v : Option (Verifiable C))
      → Accepted user action v none
      → is_absent v ≡ true
  Accepted-absent user action none h = refl
  Accepted-absent user action (some v) h = absurd h

  no_need-PluginAccepts :
      (s : VerificationSession C) (listed : List PluginStatus) (p : Option (Plugin C))
      → no_need p ≡ true
      → PluginAccepts s listed p
  no_need-PluginAccepts s listed none h = tt
  no_need-PluginAccepts s listed (some p) h = absent-Accepted _ _ p.verifiable _ h

  module _ (mgr : Manager C) (s : VerificationSession C) (listed : List PluginStatus)
      (named : IsNamed mgr s.app_id) (all : All IsCompleted listed) (r : Requirement) where
    pub met-Satisfied : met mgr s.app_id listed r ≡ true → Satisfied mgr s listed r
    met-Satisfied h = elim (Bool-cases (has_row r.name listed)) [
      | inl e ↦ inl (latest-IsDone r.name listed all e)
      | inr e ↦ inr (no_need-PluginAccepts s listed _ (simp e at h))
    ]

    PluginAccepts-no_need :
        (o : Option (Plugin C))
        → mgr.get_plugin s.app_id r.name ≡ o
        → has_row r.name listed ≡ false
        → PluginAccepts s listed o
        → no_need o ≡ true
    PluginAccepts-no_need none e gone h = refl
    PluginAccepts-no_need (some p) e gone h =
        let no_row : latest p.name listed ≡ none =
          rw (named r.name p e) (latest-none r.name listed gone) in
        Accepted-absent _ _ p.verifiable (simp no_row at h)

    pub Satisfied-met : Satisfied mgr s listed r → met mgr s.app_id listed r ≡ true
    Satisfied-met h = elim (Bool-cases (has_row r.name listed)) [
      | inl e ↦ simp e
      | inr e ↦ simp e (by_case e h)
    ]
      where
        by_case :
            has_row r.name listed ≡ false
            → Satisfied mgr s listed r
            → no_need (mgr.get_plugin s.app_id r.name) ≡ true
        by_case e (inl done) = absurd (simp (latest-none r.name listed e) at done)
        by_case e (inr a) = PluginAccepts-no_need _ refl e a

    done-completed :
        (l : Option PluginStatus) → IsDone l → has_completed (if_none (status_in l) none) ≡ true
    done-completed none d = absurd d
    done-completed (some row) d = simp d

    by_plugin-Answers :
        (o : Option (Plugin C))
        → mgr.get_plugin s.app_id r.name ≡ o
        → has_row r.name listed ≡ false
        → Answers (by_plugin s (build_status_maps listed [] []).1 r o)
    unfolding validate lookup
    by_plugin-Answers none e gone = tt
    by_plugin-Answers (some p) e gone =
        let no_row : lookup p.name (build_status_maps listed [] []).1 ≡ none =
          (build_status_maps-latest p.name listed [] []).1
          ∙ rw (named r.name p e) (simp (latest-none r.name listed gone)) in
        elim (Option-cases p.verifiable) [ inl v ↦ simp v tt | inr (v, f) ↦ simp (f, no_row) tt ]

    pub check_listed-Answers : Answers (check_listed mgr s listed r)
    unfolding validate_single lookup
    check_listed-Answers = elim (Bool-cases (has_row r.name listed)) [
      | inl e ↦
          simp
            (
              (build_status_maps-latest r.name listed [] []).0,
              done-completed _ (latest-IsDone r.name listed all e),
            )
            tt
      | inr e ↦
          simp ((build_status_maps-latest r.name listed [] []).0, latest-none r.name listed e)
            (by_plugin-Answers _ refl e)
    ]
