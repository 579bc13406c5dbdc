-- ===== src/Sessions/Cleared.antt =====
-- What ClearVerification of internal/service/verification_status.go leaves.
use lauth.Prelude.{
  ℕ, suc, String, ◌==◌, eq_iff, ◌≡◌, refl, ap, ◌∙◌, Bool, true, false, not, ◌&&◌, ◌||◌, Option,
  none, some, List, [], ◌∷◌, keep, keep-ext, keep-keep, keep-all, arith, All, All-every, All-mono,
  All-self, Any-keep_iff, Any-mono,
}
use lauth.Sessions.Tables.{
  VerificationSession, PluginStatus, Store, Env, VerifyError, pending, status_of, list_status,
  delete_status,
}
use lauth.Sessions.Clearing.{
  delete_each, delete_found, delete_active, delete_listed, and_then, clear_verification,
}
use lauth.Sessions.Rows.{Rearranges, has_row, has_row_iff}

-- The rows that are not those of a user and an action.
abbrev pub without : String → String → String → List PluginStatus → List PluginStatus
without app user action rows = keep (λ r. not (status_of app user action r)) rows

and_false : (f : Bool) → not (f && false) ≡ true
and_false true = refl
and_false false = refl

one_less :
    (f h : Bool) (a b : String) → (not (f && a == b) && not (f && h)) ≡ not (f && (b == a || h))
one_less f h a b = ground (arith, eq_iff a b, eq_iff b a)

-- Not in the first, and then not in the second.
neither : (f g : Bool) → (not f && not g) ≡ not (f || g)
neither true g = refl
neither false g = refl

module _ (env : Env) (works : (k : ℕ) → env.works k ≡ true) where
  delete_each-keep :
      (k : ℕ) (app user action : String) (listed rows : List PluginStatus)
      → delete_each env k app user action listed rows
        ≡ (none, keep (λ r. not (status_of app user action r && has_row r.plugin listed)) rows)
  unfolding delete_each delete_status
  delete_each-keep k app user action [] rows =
      let all =
        keep-all (λ r. not (status_of app user action r && false)) rows
          (All-every _ rows (λ r. and_false (status_of app user action r))) in
      rw all refl
  delete_each-keep k app user action (s ∷ ss) rows =
      simp (works k, delete_each-keep (suc k) app user action ss, keep-keep)
        (ap (λ kept. (none, kept))
          (keep-ext _ _ rows (
            All-every _ rows (λ r.
              one_less (status_of app user action r) (has_row r.plugin ss) r.plugin s.plugin))))

  -- A row of the user and the action has its plugin among the listed ones.
  listed-has_row :
      (f : PluginStatus → Bool) (rows : List PluginStatus)
      → Rearranges env.listed
      → All (λ r. f r ≡ true → has_row r.plugin (env.listed (keep f rows)) ≡ true) rows
  listed-has_row f rows l =
      All-mono _ _ rows
        (λ r there e. (has_row_iff r.plugin _).1 (
          (l (λ q. q.plugin ≡ r.plugin) (keep f rows)).0.1 (
            (Any-keep_iff _ f rows).1 (
              Any-mono _ _ rows
                (λ q same. (ap f same ∙ e, ap (λ (q : PluginStatus). q.plugin) same)) there))))
        (All-self rows)

  delete_each_listed :
      (k : ℕ) (app user action : String) (rows : List PluginStatus)
      → Rearranges env.listed
      → delete_each env k app user action (list_status env app user action rows) rows
        ≡ (none, without app user action rows)
  unfolding list_status
  delete_each_listed k app user action rows l =
      rw (delete_each-keep k app user action (list_status env app user action rows) rows) (
        ap (λ kept. (none, kept))
          (keep-ext _ _ rows (
            All-mono _ _ rows (λ r has. ground (arith, has))
              (listed-has_row (status_of app user action) rows l))))

  module _ {C : Type 0} where
    and_then-none :
        (a : Option VerifyError × Store C) (next : Store C → Option VerifyError × Store C)
        → a.0 ≡ none
        → and_then a next ≡ next a.1
    and_then-none (none, st) next h = refl
    and_then-none (some e, st) next h = absurd (cc h)

    delete_found_statuses :
        (k : ℕ) (o : Option (VerificationSession C)) (st : Store C)
        → ((delete_found env k o st).0 ≡ none)
          × ((delete_found env k o st).1.statuses ≡ st.statuses)
    delete_found_statuses k none st = (refl, refl)
    delete_found_statuses k (some s) st = simp (works k) (refl, refl)

    delete_active_statuses :
        (k : ℕ) (app user : String) (st : Store C)
        → ((delete_active env k app user st).0 ≡ none)
          × ((delete_active env k app user st).1.statuses ≡ st.statuses)
    unfolding delete_active
    delete_active_statuses k app user st = simp (works k) (delete_found_statuses (suc k) _ st)

    delete_listed-without :
        (k : ℕ) (app user action : String) (st : Store C)
        → Rearranges env.listed
        → delete_listed env k app user action st
          ≡ (none, record st { statuses = without app user action st.statuses })
    unfolding delete_listed
    delete_listed-without k app user action st l =
        simp (works k, delete_each_listed (suc k) app user action st.statuses l)

    -- ClearVerification with a database that answers: afterwards there is no status of the user
    -- and the action, nor of the user `pending` and the action, and all other statuses stay, in
    -- their order. The database lists the rows that there are, in any order.
    pub clear_verification_statuses :
        (app user action : String) (st : Store C)
        → Rearranges env.listed
        → ((clear_verification env app user action st).0 ≡ none)
          × ((clear_verification env app user action st).1.statuses
              ≡ keep
                  (λ r. not (status_of app user action r || status_of app pending action r))
                  st.statuses)
    unfolding clear_verification
    clear_verification_statuses app user action st l =
        let first = delete_active env 0 app user st in
        let (ok1, same1) = delete_active_statuses 0 app user st in
        let second = delete_active env 2 app pending first.1 in
        let (ok2, same2) = delete_active_statuses 2 app pending first.1 in
        rw
          (
            and_then-none first _ ok1,
            and_then-none second _ ok2,
            delete_listed-without 4 app user action second.1 l,
            delete_listed-without _ app pending action _ l,
          )
          (
            refl,
            keep-keep _ _ second.1.statuses
                ∙ keep-ext _ _ second.1.statuses (All-every _ _ (λ r. neither _ _))
                ∙ ap (keep _) (same2 ∙ same1),
          )
