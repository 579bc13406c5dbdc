-- ===== src/Sessions/Progress.antt =====
-- A client of internal/service/verification_plugin.go and verification_status.go that completes the
-- plugin that it is asked for, over and over.
use lauth.Prelude.{
  ℕ, ◌-◌, ◌≤◌, String, eq_refl, ◌≡◌, refl, ◌∙◌, inl, inr, true, false, Option, none, some, List, [],
  ◌∷◌, ◌++◌, length, arith, All, All-every, Any,
}
use lauth.Sessions.Tables.{VerificationSession, PluginStatus, Store, Env, Answer, ok, err}
use lauth.Sessions.Status.{Manager}
use lauth.Sessions.Requirements.{Requirement, get_required_plugins}
use lauth.Sessions.Walk.{VerificationStatus}
use lauth.Sessions.Validation.{asked_user, validate_plugin_status_by_session}
use lauth.Sessions.Satisfied.{Satisfied}
use lauth.Sessions.Verdict.{AsksFor, Verdict, Verdict-both, validate_session-Verdict}
use lauth.Sessions.Rows.{IsCompleted, own, own-save, saved_row}
use lauth.Sessions.Rounds.{
  complete, follow, round, rounds, Serves, validate_found_lem, update_found, has_row-Rearranges,
  has_row-saved, All-saved,
}
use lauth.Sessions.Met.{
  IsNamed, met, met-Satisfied, Satisfied-met, check_listed-Answers, open_count, open_count_less,
  open_count-zero, open_count_le, zero-open_count, FirstOpen-member,
}

module _ {C : Type 0} where
  module _ (mgr : Manager C) (id : String) (s : VerificationSession C) (rs : List Requirement)
      (named : IsNamed mgr s.app_id)
      (required : get_required_plugins mgr s.app_id s.action s.context (asked_user s s.user_id)
        ≡ ok rs) where
    abbrev AllMet : List PluginStatus → Requirement → Type 0
    AllMet rows r = met mgr s.app_id (own s rows) r ≡ true

    validate-Verdict :
        (env : Env) (st : Store C)
        → Serves id s st.sessions env
        → All IsCompleted (own s st.statuses)
        → Verdict (AllMet st.statuses) rs (validate_plugin_status_by_session env mgr id st)
    validate-Verdict env st (a, b, found, l) done =
        let rows = own s st.statuses in
        let listed = env.listed rows in
        let done' : All IsCompleted listed = (l IsCompleted rows).1 done in
        rw (validate_found_lem env mgr id s st (a, b, found, l)) (
          Verdict-both (Satisfied mgr s listed) (AllMet st.statuses)
            (λ r. rw (← has_row-Rearranges env.listed r.name rows l) (
              λ h. Satisfied-met mgr s listed named done' r h,
              λ h. met-Satisfied mgr s listed named done' r h,
            ))
            rs _
            (validate_session-Verdict env mgr s listed rs required
              (All-every _ rs (check_listed-Answers mgr s listed named done'))))

    abbrev left : List PluginStatus → ℕ
    left rows = open_count (met mgr s.app_id (own s rows)) rs

    saved_less :
        (env : Env) (r : Requirement) (rows : List PluginStatus)
        → Any (λ x. x ≡ r) rs × (met mgr s.app_id rows r ≡ true → ⊥)
        → open_count (met mgr s.app_id (rows ++ saved_row env s r.name ∷ [])) rs
          ≤ open_count (met mgr s.app_id rows) rs - 1
    saved_less env r rows (member, unmet) =
        let shut : met mgr s.app_id rows r ≡ false = ground (arith, unmet) in
        let less =
          open_count_less (met mgr s.app_id rows)
            (met mgr s.app_id (rows ++ saved_row env s r.name ∷ [])) rs r
            (λ x h. rw (has_row-saved env s r.name rows x.name) (ground arith)) member shut
            (rw (has_row-saved env s r.name rows r.name, eq_refl r.name) (ground arith)) in
        omega (arith, less)

    complete_less :
        (env : Env) (st : Store C) (next : Option Requirement)
        → Serves id s st.sessions env
        → All IsCompleted (own s st.statuses)
        → AsksFor (AllMet st.statuses) rs next
        → ((complete env mgr id next st).sessions ≡ st.sessions)
          × All IsCompleted (own s (complete env mgr id next st).statuses)
          × (left (complete env mgr id next st).statuses ≤ left st.statuses - 1)
    complete_less env st none serves done asks =
        (refl, done, omega (arith, zero-open_count _ rs asks))
    complete_less env st (some r) serves done asks =
        let rows = own s st.statuses in
        rw (update_found env mgr id r.name s st serves, own-save env s r.name st.statuses)
          (refl, All-saved env s r.name rows done, saved_less env r rows (by_asks asks))
      where
        by_asks :
            AsksFor (AllMet st.statuses) rs (some r)
            → Any (λ x. x ≡ r) rs × (AllMet st.statuses r → ⊥)
        by_asks (inl h) = FirstOpen-member _ _ rs r h
        by_asks (inr (a, h)) = FirstOpen-member _ _ rs r h

    round_less :
        (env : Env) (st : Store C)
        → Serves id s st.sessions env
        → All IsCompleted (own s st.statuses)
        → ((round env mgr id st).sessions ≡ st.sessions)
          × All IsCompleted (own s (round env mgr id st).statuses)
          × (left (round env mgr id st).statuses ≤ left st.statuses - 1)
    round_less env st serves done =
        by_answer (validate_plugin_status_by_session env mgr id st)
          (validate-Verdict env st serves done)
      where
        by_answer :
            (a : Answer VerificationStatus)
            → Verdict (AllMet st.statuses) rs a
            → ((follow env mgr id a st).sessions ≡ st.sessions)
              × All IsCompleted (own s (follow env mgr id a st).statuses)
              × (left (follow env mgr id a st).statuses ≤ left st.statuses - 1)
        by_answer (err e) v = absurd v
        by_answer (ok a) v = complete_less env st a.next_plugin serves done v.1

    rounds_less :
        (envs : List Env) (st : Store C)
        → All (Serves id s st.sessions) envs
        → All IsCompleted (own s st.statuses)
        → ((rounds envs mgr id st).sessions ≡ st.sessions)
          × All IsCompleted (own s (rounds envs mgr id st).statuses)
          × (left (rounds envs mgr id st).statuses ≤ left st.statuses - length envs)
    rounds_less [] st serves done = (refl, done, omega arith)
    rounds_less (env ∷ envs) st serves done =
        let (same, done', less) = round_less env st serves.0 done in
        let (same', done'', less') =
          rounds_less envs (round env mgr id st) (rw same serves.1) done' in
        (same' ∙ same, done'', omega (arith, less, less'))

    -- A client that reports the plugin that it is asked for as completed, again and again, is told
    -- that the verification is completed after as many rounds as there are requirements, whatever
    -- the plugins answer. The session is found and the database works in every round, and whatever
    -- was saved for the session before is completed; GetPlugin gives plugins of the name that it
    -- is asked for.
    pub rounds_completed :
        (envs : List Env) (env : Env) (st : Store C)
        → All (Serves id s st.sessions) (env ∷ envs)
        → All IsCompleted (own s st.statuses)
        → length rs ≤ length envs
        → (a : VerificationStatus) × (validate_plugin_status_by_session env mgr id
              (rounds envs mgr id st)
            ≡ ok a)
          × (a.completed_all ≡ true)
    rounds_completed envs env st serves done enough =
        let (same, done', less) = rounds_less envs st serves.1 done in
        let all_met =
          open_count-zero (met mgr s.app_id (own s (rounds envs mgr id st).statuses)) rs (
            omega (arith, less, enough, open_count_le (met mgr s.app_id (own s st.statuses)) rs)) in
        by_answer _ (validate-Verdict env (rounds envs mgr id st) (rw same serves.0) done') all_met
      where
        by_answer :
            (answer : Answer VerificationStatus)
            → Verdict (AllMet (rounds envs mgr id st).statuses) rs answer
            → All (AllMet (rounds envs mgr id st).statuses) rs
            → (a : VerificationStatus) × (answer ≡ ok a) × (a.completed_all ≡ true)
        by_answer (err e) v all = absurd v
        by_answer (ok a) v all = (a, refl, v.0.1 all)
