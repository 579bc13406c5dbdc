-- ===== src/Sessions/Walk.antt =====
-- internal/service/verification_plugin.go: the loops over the required and the optional plugins of a
-- session, and the answer that they give.
use lauth.Prelude.{
  ℕ, String, Bool, true, false, not, ◌&&◌, Option, none, some, List, [], ◌∷◌, if◌then◌else◌,
}
use lauth.Sessions.Tables.{Env, plugin_failed, Answer, ok, err, completed, pending}
use lauth.Sessions.Requirements.{Requirement}

-- VerificationStatus
pub record VerificationStatus : Type 0 where
  pub completed_all : Bool
  pub state : String
  pub next_plugin : Option Requirement
  pub updated_at : ℕ
  pub plugins : List Requirement

-- What a loop over requirements finds: whether all are completed, the first that is not, and the
-- requirements with the statuses that it sets.
pub record Walk : Type 0 where
  pub all_completed : Bool
  pub first_open : Option Requirement
  pub walked : List Requirement

abbrev pub mark_completed : Requirement → Requirement
mark_completed r = record r { status = completed }

-- `validateSinglePlugin` with the validity of the record; none is an error.
abbrev pub by_validity : Requirement → Option Bool → Answer (Bool × Requirement)
by_validity r none = err plugin_failed
by_validity r (some true) = ok (true, mark_completed r)
by_validity r (some false) = ok (false, r)

abbrev pub put_checked : Answer (Bool × Requirement) → Answer Walk → Answer Walk
put_checked (err e) rest = err e
put_checked (ok (done, r)) (err e) = err e
put_checked (ok (done, r)) (ok w) = ok (record {
  all_completed = done && w.all_completed;
  first_open = if done then w.first_open else some r;
  walked = r ∷ w.walked;
})

abbrev pub put_skipped : Requirement → Answer Walk → Answer Walk
put_skipped r (err e) = err e
put_skipped r (ok w) = ok (record w { walked = r ∷ w.walked })

-- The loops of validateRequiredPlugins and validateOptionalPlugins: `chosen` is which requirements
-- they look at and `check` is validateSinglePlugin.
unfoldable pub validate_loop :
    (Requirement → Bool)
    → (Requirement → Answer (Bool × Requirement))
    → List Requirement
    → Answer Walk
validate_loop chosen check [] = ok (record { all_completed = true; first_open = none; walked = [] })
validate_loop chosen check (r ∷ rs) =
    let rest = validate_loop chosen check rs in
    if chosen r then put_checked (check r) rest else put_skipped r rest

-- The completed status, or the pending one with the next plugin.
abbrev pub answer_status : Env → Bool → Option Requirement → List Requirement → VerificationStatus
answer_status env true none rs = record {
  completed_all = true;
  state = completed;
  next_plugin = none;
  updated_at = env.now;
  plugins = rs;
}
answer_status env all next rs = record {
  completed_all = false;
  state = pending;
  next_plugin = next;
  updated_at = env.now;
  plugins = rs;
}

-- The answer after the loop over the optional plugins.
abbrev pub after_optional : Env → Answer Walk → Answer VerificationStatus
after_optional env (err e) = err e
after_optional env (ok w) = ok (answer_status env true w.first_open w.walked)

-- The answer after the loop over the required plugins: the optional ones are looked at only when
-- all of them are completed.
abbrev pub after_walk :
    Env
    → (Requirement → Answer (Bool × Requirement))
    → Bool
    → Option Requirement
    → List Requirement
    → Answer VerificationStatus
after_walk env check true none walked =
    after_optional env (validate_loop (λ r. not r.required) check walked)
after_walk env check all next walked = ok (answer_status env all next walked)

abbrev pub after_required :
    Env → (Requirement → Answer (Bool × Requirement)) → Answer Walk → Answer VerificationStatus
after_required env check (err e) = err e
after_required env check (ok w) = after_walk env check w.all_completed w.first_open w.walked

-- The two loops, on the requirements.
unfoldable pub validate_requirements :
    Env
    → (Requirement → Answer (Bool × Requirement))
    → Answer (List Requirement)
    → Answer VerificationStatus
validate_requirements env check (err e) = err e
validate_requirements env check (ok rs) =
    after_required env check (validate_loop (λ r. r.required) check rs)
