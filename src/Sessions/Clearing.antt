-- ===== src/Sessions/Clearing.antt =====
-- ClearVerification of internal/service/verification_status.go.
use lauth.Prelude.{ℕ, suc, ◌+◌, String, Option, none, some, List, [], ◌∷◌, length, if◌then◌else◌}
use lauth.Sessions.Tables.{
  VerificationSession, PluginStatus, Store, Env, VerifyError, database_failed, pending,
  get_active_session, delete_session, list_status, delete_status,
}

-- The loop over the listed statuses, whose first DeleteStatus is call `k` of the database. What is
-- deleted before a failure stays deleted.
unfoldable pub delete_each :
    Env
    → ℕ
    → String
    → String
    → String
    → List PluginStatus
    → List PluginStatus
    → Option VerifyError × List PluginStatus
delete_each env k app user action [] rows = (none, rows)
delete_each env k app user action (s ∷ ss) rows =
    let rest =
      delete_each env (suc k) app user action ss (delete_status app user action s.plugin rows) in
    if env.works k then rest else (some database_failed, rows)

module _ {C : Type 0} where
  -- One statement after another, up to the first error.
  abbrev pub and_then :
      Option VerifyError × Store C
      → (Store C → Option VerifyError × Store C)
      → Option VerifyError × Store C
  and_then (some e, st) next = (some e, st)
  and_then (none, st) next = next st

  -- Deleting the session that GetActiveSession gives.
  abbrev pub delete_found :
      Env → ℕ → Option (VerificationSession C) → Store C → Option VerifyError × Store C
  delete_found env k none st = (none, st)
  delete_found env k (some s) st =
      if env.works k
      then (none, record st { sessions = delete_session s.id st.sessions })
      else (some database_failed, st)

  -- The active session of a user is deleted; the query is call `k` of the database.
  unfoldable pub delete_active : Env → ℕ → String → String → Store C → Option VerifyError × Store C
  delete_active env k app user st =
      if env.works k
      then delete_found env (suc k) (get_active_session env app user st.sessions) st
      else (some database_failed, st)

  -- The statuses of a user and action are listed and deleted; the query is call `k`.
  unfoldable pub delete_listed :
      Env → ℕ → String → String → String → Store C → Option VerifyError × Store C
  delete_listed env k app user action st =
      let (e, rows) =
        delete_each env (suc k) app user action (list_status env app user action st.statuses)
          st.statuses in
      if env.works k then (e, record st { statuses = rows }) else (some database_failed, st)

  -- ClearVerification
  unfoldable pub clear_verification :
      Env → String → String → String → Store C → Option VerifyError × Store C
  clear_verification env app user action st = and_then (delete_active env 0 app user st) λ own.
      and_then (delete_active env 2 app pending own) λ both.
        and_then (delete_listed env 4 app user action both) λ cleared.
          delete_listed env (5 + length (list_status env app user action both.statuses)) app pending
            action cleared
