-- ===== src/Sessions/Rounds.antt =====
-- Rounds of a client of internal/service/verification_plugin.go and verification_status.go that
-- completes the plugin that it is asked for.
use lauth.Prelude.{
  String, ◌==◌, ◌≡◌, refl, true, false, ◌||◌, Option, none, some, List, [], ◌∷◌, ◌++◌, ltb, arith,
  All,
}
use lauth.Sessions.Tables.{
  VerificationSession, PluginStatus, Store, Env, Answer, ok, err, completed, get_session,
  save_status,
}
use lauth.Sessions.Status.{Manager, session_status, update_plugin_status_by_session}
use lauth.Sessions.Requirements.{Requirement}
use lauth.Sessions.Walk.{VerificationStatus}
use lauth.Sessions.Validation.{validate_session, validate_plugin_status_by_session}
use lauth.Sessions.Rows.{
  IsCompleted, Rearranges, own, saved_row, has_row, has_row_iff, get_statuses_by_session-own,
}

pub has_row-Rearranges :
    (f : List PluginStatus → List PluginStatus) (name : String) (rows : List PluginStatus)
    → Rearranges f
    → has_row name (f rows) ≡ has_row name rows
has_row-Rearranges f name rows l =
    let (to, from) = (l (λ row. row.plugin ≡ name) rows).0 in
    ground (arith, has_row_iff name rows, has_row_iff name (f rows), to, from)

module _ {C : Type 0} where
  pub get_session-live :
      (env : Env) (id : String) (ss : List (VerificationSession C)) (s : VerificationSession C)
      → get_session env id ss ≡ some s
      → ltb s.expired_at env.now ≡ false
  unfolding get_session
  get_session-live env id [] s h = absurd (cc h)
  get_session-live env id (t ∷ ts) s h = ground (arith, get_session-live env id ts s)

  -- The plugin that is asked for is reported as completed.
  abbrev pub complete : Env → Manager C → String → Option Requirement → Store C → Store C
  complete env mgr id none st = st
  complete env mgr id (some r) st =
      (update_plugin_status_by_session env mgr id r.name completed st).1

  abbrev pub follow : Env → Manager C → String → Answer VerificationStatus → Store C → Store C
  follow env mgr id (err e) st = st
  follow env mgr id (ok a) st = complete env mgr id a.next_plugin st

  -- One round: the status is asked for, and what it says is done. Two rounds never share an Env.
  abbrev pub round : Env → Manager C → String → Store C → Store C
  round env mgr id st = follow env mgr id (validate_plugin_status_by_session env mgr id st) st

  abbrev pub rounds : List Env → Manager C → String → Store C → Store C
  rounds [] mgr id st = st
  rounds (env ∷ envs) mgr id st = rounds envs mgr id (round env mgr id st)

  -- The database answers, has the session, and lists the statuses that there are.
  abbrev pub Serves : String → VerificationSession C → List (VerificationSession C) → Env → Type 1
  Serves id s sessions env =
      (env.works 0 ≡ true)
      × (env.works 1 ≡ true)
      × (get_session env id sessions ≡ some s)
      × Rearranges env.listed

  pub validate_found_lem :
      (env : Env) (mgr : Manager C) (id : String) (s : VerificationSession C) (st : Store C)
      → Serves id s st.sessions env
      → validate_plugin_status_by_session env mgr id st
        ≡ validate_session env mgr s (env.listed (own s st.statuses))
  unfolding validate_plugin_status_by_session
  validate_found_lem env mgr id s st (a, b, found, l) =
      simp (
        a,
        b,
        found,
        get_session-live env id st.sessions s found,
        get_statuses_by_session-own env s,
      )

  pub update_found :
      (env : Env) (mgr : Manager C) (id name : String) (s : VerificationSession C) (st : Store C)
      → Serves id s st.sessions env
      → (update_plugin_status_by_session env mgr id name completed st).1
        ≡ record st { statuses = save_status env (session_status s name completed) st.statuses }
  unfolding update_plugin_status_by_session
  update_found env mgr id name s st (a, b, found, l) =
      simp (a, b, found, get_session-live env id st.sessions s found)

  pub has_row-saved :
      (env : Env) (s : VerificationSession C) (name : String) (rows : List PluginStatus)
      (other : String)
      → has_row other (rows ++ saved_row env s name ∷ []) ≡ (has_row other rows || name == other)
  has_row-saved env s name [] other = ground arith
  has_row-saved env s name (row ∷ rows) other = ground (arith, has_row-saved env s name rows other)

  pub All-saved :
      (env : Env) (s : VerificationSession C) (name : String) (rows : List PluginStatus)
      → All IsCompleted rows
      → All IsCompleted (rows ++ saved_row env s name ∷ [])
  All-saved env s name [] h = (refl, tt)
  All-saved env s name (row ∷ rows) h = (h.0, All-saved env s name rows h.1)
