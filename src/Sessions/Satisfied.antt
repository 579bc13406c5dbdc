-- ===== src/Sessions/Satisfied.antt =====
-- When ValidatePluginStatusBySession of internal/service/verification_plugin.go lets a login or a
-- registration go on.
use lauth.Prelude.{
  String, ◌==◌, eq_iff, ◌≡◌, refl, ◌⊎◌, inl, inr, ◌↔◌, Bool, true, false, Option, none, some, List,
  [], ◌∷◌, if◌then◌else◌, arith,
}
use lauth.Prelude.Dict.{Dict, lookup, insert, lookup-insert}
use lauth.Sessions.Tables.{VerificationSession, PluginStatus, Answer, ok, completed}
use lauth.Sessions.Status.{Verifiable, Plugin, Manager}
use lauth.Sessions.Requirements.{Requirement}
use lauth.Sessions.Walk.{by_validity, mark_completed}
use lauth.Sessions.Validation.{
  build_status_maps, user_or_empty, valid_record, valid_verifiable, validate, by_plugin,
  has_completed, validate_single,
}
use lauth.Sessions.Decision.{passed, CheckOf}

abbrev pub if_none : {A : Type 0} → Option A → Option A → Option A
if_none none other = other
if_none (some a) other = some a

-- The last row of a plugin.
abbrev pub latest : String → List PluginStatus → Option PluginStatus
latest name [] = none
latest name (s ∷ ss) = if_none (latest name ss) (if s.plugin == name then some s else none)

abbrev pub status_in : Option PluginStatus → Option String
status_in none = none
status_in (some s) = some s.status

pub build_status_maps-latest :
    (name : String) (ss : List PluginStatus) (statuses : Dict String) (rows : Dict PluginStatus)
    → (lookup name (build_status_maps ss statuses rows).0
        ≡ if_none (status_in (latest name ss)) (lookup name statuses))
      × (lookup name (build_status_maps ss statuses rows).1
          ≡ if_none (latest name ss) (lookup name rows))
unfolding build_status_maps
build_status_maps-latest name [] statuses rows = (refl, refl)
build_status_maps-latest name (s ∷ ss) statuses rows =
    let (a, b) =
      build_status_maps-latest name ss (insert s.plugin s.status statuses)
        (insert s.plugin s rows) in
    rw (a, b, lookup-insert name s.plugin, lookup-insert name s.plugin)
      (glue (latest name ss) (s.plugin == name) _, glue_row (latest name ss) (s.plugin == name) _)
  where
    glue :
        (l : Option PluginStatus) (same : Bool) (old : Option String)
        → if_none (status_in l) (if same then some s.status else old)
          ≡ if_none (status_in (if_none l (if same then some s else none))) old
    glue none true old = refl
    glue none false old = refl
    glue (some l) same old = refl

    glue_row :
        (l : Option PluginStatus) (same : Bool) (old : Option PluginStatus)
        → if_none l (if same then some s else old)
          ≡ if_none (if_none l (if same then some s else none)) old
    glue_row none true old = refl
    glue_row none false old = refl
    glue_row (some l) same old = refl

by_validity_iff :
    (r : Requirement) (valid : Option Bool)
    → (passed (by_validity r valid) ≡ true) ↔ (valid ≡ some true)
by_validity_iff r none = (λ h. cc h, λ h. cc h)
by_validity_iff r (some true) = (λ _. refl, λ _. refl)
by_validity_iff r (some false) = (λ h. cc h, λ h. cc h)

-- A row of the plugin exists and is completed.
abbrev pub IsDone : Option PluginStatus → Type 0
IsDone none = ⊥
IsDone (some row) = row.status ≡ completed

module _ {C : Type 0} where
  -- There is nothing to verify, or the row that there is gets accepted.
  abbrev pub Accepted : String → String → Option (Verifiable C) → Option PluginStatus → Type 0
  Accepted user action none row = Unit
  Accepted user action (some v) none = ⊥
  Accepted user action (some v) (some row) = v.validate_verification user action row.id ≡ some true

  -- There is no such plugin, or it accepts the last of its rows.
  abbrev pub PluginAccepts : VerificationSession C → List PluginStatus → Option (Plugin C) → Type 0
  PluginAccepts s listed none = Unit
  PluginAccepts s listed (some p) =
      Accepted (user_or_empty s.user_id) s.action p.verifiable (latest p.name listed)

  -- The last row of a plugin that is asked for is completed, or there is no such plugin, or it
  -- accepts what there is.
  abbrev pub Satisfied :
      Manager C → VerificationSession C → List PluginStatus → Requirement → Type 0
  Satisfied mgr s listed r =
      IsDone (latest r.name listed) ⊎ PluginAccepts s listed (mgr.get_plugin s.app_id r.name)

  -- validateSinglePlugin, on the statuses that are listed.
  abbrev pub check_listed :
      Manager C
      → VerificationSession C
      → List PluginStatus
      → Requirement
      → Answer (Bool × Requirement)
  check_listed mgr s listed =
      validate_single mgr s (build_status_maps listed [] []).0 (build_status_maps listed [] []).1

  valid_verifiable_iff :
      (user : Option String) (action name : String) (listed : List PluginStatus)
      (v : Option (Verifiable C))
      → (valid_verifiable user action name (build_status_maps listed [] []).1 v ≡ some true)
        ↔ Accepted (user_or_empty user) action v (latest name listed)
  unfolding lookup
  valid_verifiable_iff user action name listed none = (λ _. tt, λ _. refl)
  valid_verifiable_iff user action name listed (some v) =
      rw (build_status_maps-latest name listed [] []).1 (by_row (latest name listed))
    where
      by_row :
          (row : Option PluginStatus)
          → (valid_record (user_or_empty user) action v (if_none row none) ≡ some true)
            ↔ Accepted (user_or_empty user) action (some v) row
      by_row none = (λ h. cc h, λ h. absurd h)
      by_row (some row) = (λ h. h, λ h. h)

  by_plugin_iff :
      (s : VerificationSession C) (listed : List PluginStatus) (r : Requirement)
      (p : Option (Plugin C))
      → (passed (by_plugin s (build_status_maps listed [] []).1 r p) ≡ true)
        ↔ PluginAccepts s listed p
  unfolding validate
  by_plugin_iff s listed r none = (λ _. tt, λ _. refl)
  by_plugin_iff s listed r (some p) =
      let (to, from) = by_validity_iff r _ in
      let (there, back) = valid_verifiable_iff s.user_id s.action p.name listed p.verifiable in
      (λ h. there (to h), λ h. from (back h))

  pub check_listed_iff :
      (mgr : Manager C) (s : VerificationSession C) (listed : List PluginStatus) (r : Requirement)
      → (passed (check_listed mgr s listed r) ≡ true) ↔ Satisfied mgr s listed r
  unfolding validate_single lookup
  check_listed_iff mgr s listed r = rw (build_status_maps-latest r.name listed [] []).0 (
      by_row (latest r.name listed) _ _ (by_plugin_iff s listed r (mgr.get_plugin s.app_id r.name)))
    where
      by_row :
          (row : Option PluginStatus) (a : Answer (Bool × Requirement)) (P : Type 0)
          → (passed a ≡ true) ↔ P
          → (passed (
                if has_completed (if_none (status_in row) none)
                then ok (true, mark_completed r)
                else a)
              ≡ true)
            ↔ (IsDone row ⊎ P)
      by_row none a P e = (λ h. inr (e.0 h), λ h. elim h [ inl n ↦ absurd n | inr q ↦ e.1 q ])
      by_row (some row) a P e = ground (arith, eq_iff row.status completed, e)

  pub check_listed-CheckOf :
      (mgr : Manager C) (s : VerificationSession C) (listed : List PluginStatus) (r : Requirement)
      → CheckOf r (check_listed mgr s listed r)
  unfolding validate_single
  check_listed-CheckOf mgr s listed r = ground arith
