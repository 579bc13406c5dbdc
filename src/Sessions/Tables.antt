-- ===== src/Sessions/Tables.antt =====
-- internal/model/plugin.go, internal/repository/verification_session_postgres.go and
-- plugin_status_postgres.go: the two tables and the queries of them. Rows stand in the order in
-- which they were written. A time is a number, and 0 is the time that IsZero means.
use lauth.Prelude.{
  ℕ, ◌+◌, String, ◌==◌, Bool, true, false, not, ◌&&◌, ◌||◌, Option, none, some, List, [], ◌∷◌, ltb,
  ◌++◌, eqb, keep, if◌then◌else◌,
}

-- VerificationSession, with a context of the type C.
pub record VerificationSession (C : Type 0) : Type 0 where
  pub id : String
  pub app_id : String
  pub user_id : Option String
  pub identifier : String
  pub identifier_type : String
  pub action : String
  pub status : String
  pub context : C
  pub created_at : ℕ
  pub updated_at : ℕ
  pub expired_at : ℕ

pub record PluginStatus : Type 0 where
  pub id : String
  pub app_id : String
  pub user_id : Option String
  pub identifier : String
  pub identifier_type : String
  pub action : String
  pub plugin : String
  pub status : String
  pub created_at : ℕ
  pub updated_at : ℕ

-- The tables verification_sessions and plugin_statuses.
pub record Store (C : Type 0) : Type 0 where
  pub sessions : List (VerificationSession C)
  pub statuses : List PluginStatus

-- What one operation meets: the time, which of its calls of the database succeed, by their number,
-- the uuids that it draws, how the database orders ids, and in which order it lists statuses.
pub record Env : Type 0 where
  pub now : ℕ
  pub works : ℕ → Bool
  pub uuid : ℕ → String
  pub id_before : String → String → Bool
  pub listed : List PluginStatus → List PluginStatus

pub data VerifyError : Type 0 where
  database_failed session_not_found session_expired no_active_session plugin_failed : VerifyError

-- A result or an error, as the operations return it.
pub data Answer (A : Type 0) : Type 0 where
  ok : A → Answer A
  err : VerifyError → Answer A

abbrev pub pending : String
pending = "pending"

abbrev pub completed : String
completed = "completed"

abbrev pub failed : String
failed = "failed"

-- The 30 minutes of a session, in seconds.
abbrev pub session_lifetime : ℕ
session_lifetime = 1800

-- The SQL condition `user_id = ?`; a null user equals none.
abbrev pub is_user : String → Option String → Bool
is_user user none = false
is_user user (some u) = u == user

-- The value that a field takes where it is still zero.
abbrev unless_zero : ℕ → ℕ → ℕ
unless_zero t given = if eqb t 0 then given else t

-- A call of the database that fails has changed nothing.
abbrev pub written : {A : Type 0} → Bool → VerifyError → A → A → Option VerifyError × A
written true e new old = (none, new)
written false e new old = (some e, old)

module _ {C : Type 0} where
  -- `Create` of the session repository: the row that it inserts.
  unfoldable pub session_row : Env → String → VerificationSession C → VerificationSession C
  session_row env uuid s = record s {
    id = if s.id == "" then uuid else s.id;
    created_at = unless_zero s.created_at env.now;
    updated_at = env.now;
    expired_at = unless_zero s.expired_at (env.now + session_lifetime);
  }

  abbrev pub live : Env → VerificationSession C → Bool
  live env s = ltb env.now s.expired_at

  -- GetByID
  unfoldable pub get_session :
      Env → String → List (VerificationSession C) → Option (VerificationSession C)
  get_session env id [] = none
  get_session env id (s ∷ ss) = if s.id == id && live env s then some s else get_session env id ss

  -- Whether `a` stands before `b` under ORDER BY created_at DESC, to which First adds the id.
  abbrev pub newer : Env → VerificationSession C → VerificationSession C → Bool
  newer env a b =
      ltb b.created_at a.created_at || (eqb a.created_at b.created_at && env.id_before a.id b.id)

  abbrev newer_of :
      Env → VerificationSession C → Option (VerificationSession C) → Option (VerificationSession C)
  newer_of env s none = some s
  newer_of env s (some t) = if newer env t s then some t else some s

  -- First under that order.
  unfoldable pub newest : Env → List (VerificationSession C) → Option (VerificationSession C)
  newest env [] = none
  newest env (s ∷ ss) = newer_of env s (newest env ss)

  abbrev pub of_user : Env → String → String → VerificationSession C → Bool
  of_user env app user s = s.app_id == app && (is_user user s.user_id && live env s)

  -- GetActiveSession
  unfoldable pub get_active_session :
      Env → String → String → List (VerificationSession C) → Option (VerificationSession C)
  get_active_session env app user ss = newest env (keep (of_user env app user) ss)

  abbrev pub of_identifier : Env → String → String → String → VerificationSession C → Bool
  of_identifier env app identifier type s =
      s.app_id == app && (s.identifier == identifier && (s.identifier_type == type && live env s))

  -- GetActiveSessionByIdentifier
  unfoldable pub get_active_session_by_identifier :
      Env → String → String → String → List (VerificationSession C) → Option (VerificationSession C)
  get_active_session_by_identifier env app identifier type ss =
      newest env (keep (of_identifier env app identifier type) ss)

  -- Update: Save writes over the row of that id, or inserts it where there is none.
  unfoldable pub update_session :
      VerificationSession C → List (VerificationSession C) → List (VerificationSession C)
  update_session s [] = s ∷ []
  update_session s (t ∷ ts) = if t.id == s.id then s ∷ ts else t ∷ update_session s ts

  -- Delete of the session repository.
  unfoldable pub delete_session :
      String → List (VerificationSession C) → List (VerificationSession C)
  delete_session id ss = keep (λ s. not (s.id == id)) ss

  -- DeleteExpired
  unfoldable pub delete_expired_sessions :
      Env → List (VerificationSession C) → List (VerificationSession C)
  delete_expired_sessions env ss = keep (live env) ss

abbrev pub save_over : PluginStatus → List PluginStatus → List PluginStatus
save_over s [] = s ∷ []
save_over s (t ∷ ts) = if t.id == s.id then s ∷ ts else t ∷ save_over s ts

-- SaveStatus. Without an id the row is a new one: a fresh uuid is the id of no row.
unfoldable pub save_status : Env → PluginStatus → List PluginStatus → List PluginStatus
save_status env s rows =
    let timed = record s { created_at = unless_zero s.created_at env.now; updated_at = env.now } in
    if s.id == "" then rows ++ (record timed { id = env.uuid 1 }) ∷ [] else save_over timed rows

abbrev pub status_of : String → String → String → PluginStatus → Bool
status_of app user action s = s.app_id == app && (is_user user s.user_id && s.action == action)

-- ListStatus
unfoldable pub list_status : Env → String → String → String → List PluginStatus → List PluginStatus
list_status env app user action rows = env.listed (keep (status_of app user action) rows)

abbrev pub status_of_identifier : String → String → String → String → PluginStatus → Bool
status_of_identifier app identifier type action s =
    s.app_id == app
    && (s.identifier == identifier && (s.identifier_type == type && s.action == action))

-- ListStatusByIdentifier
unfoldable pub list_status_by_identifier :
    Env → String → String → String → String → List PluginStatus → List PluginStatus
list_status_by_identifier env app identifier type action rows =
    env.listed (keep (status_of_identifier app identifier type action) rows)

-- DeleteStatus
unfoldable pub delete_status :
    String → String → String → String → List PluginStatus → List PluginStatus
delete_status app user action plugin rows =
    keep (λ s. not (status_of app user action s && s.plugin == plugin)) rows

-- DeleteStatusByIdentifier
unfoldable pub delete_status_by_identifier :
    String → String → String → String → String → List PluginStatus → List PluginStatus
delete_status_by_identifier app identifier type action plugin rows =
    keep (λ s. not (status_of_identifier app identifier type action s && s.plugin == plugin)) rows
