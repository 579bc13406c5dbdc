-- ===== src/Sessions/Rows.antt =====
-- The statuses of one session of internal/service/verification_plugin.go, when all that were
-- saved for it are completed.
use lauth.Prelude.{
  String, ◌==◌, eq_iff, eq_refl, ◌≡◌, refl, inl, inr, ◌↔◌, Bool, true, false, ◌||◌, Option, none,
  some, List, [], ◌∷◌, ◌++◌, keep, keep-append, Bool-cases, arith, All, Any,
}
use lauth.Sessions.Tables.{
  VerificationSession, PluginStatus, Env, completed, status_of, status_of_identifier, list_status,
  list_status_by_identifier, save_status,
}
use lauth.Sessions.Status.{session_status, identifier_unless}
use lauth.Sessions.Validation.{listed_for, get_statuses_by_session}
use lauth.Sessions.Satisfied.{latest, if_none, IsDone}

abbrev pub own_filter : {C : Type 0} → VerificationSession C → Option String → PluginStatus → Bool
own_filter s (some user) = status_of s.app_id user s.action
own_filter s none = status_of_identifier s.app_id s.identifier s.identifier_type s.action

-- The rows that getStatusesBySession asks for.
abbrev pub own : {C : Type 0} → VerificationSession C → List PluginStatus → List PluginStatus
own s rows = keep (own_filter s s.user_id) rows

abbrev pub IsCompleted : PluginStatus → Type 0
IsCompleted row = row.status ≡ completed

abbrev pub IsOf : String → PluginStatus → Type 0
IsOf name row = row.plugin ≡ name

abbrev pub has_row : String → List PluginStatus → Bool
has_row name [] = false
has_row name (row ∷ rows) = row.plugin == name || has_row name rows

-- The database lists the rows that there are, in any order.
abbrev pub Rearranges : (List PluginStatus → List PluginStatus) → Type 1
Rearranges f =
    (P : PluginStatus → Type 0) (rows : List PluginStatus)
    → (Any P (f rows) ↔ Any P rows) × (All P rows → All P (f rows))

pub has_row_iff :
    (name : String) (rows : List PluginStatus) → (has_row name rows ≡ true) ↔ Any (IsOf name) rows
has_row_iff name [] = (λ h. cc h, λ h. absurd h)
has_row_iff name (row ∷ rows) = ground (arith, eq_iff row.plugin name, has_row_iff name rows)

pub latest-none :
    (name : String) (rows : List PluginStatus) → has_row name rows ≡ false → latest name rows ≡ none
latest-none name [] h = refl
latest-none name (row ∷ rows) h = ground (arith, latest-none name rows)

if_none-IsDone : (l o : Option PluginStatus) → IsDone l → IsDone (if_none l o)
if_none-IsDone none o d = absurd d
if_none-IsDone (some l) o d = d

pub latest-IsDone :
    (name : String) (rows : List PluginStatus)
    → All IsCompleted rows
    → has_row name rows ≡ true
    → IsDone (latest name rows)
latest-IsDone name [] h a = cc
latest-IsDone name (row ∷ rows) h a = elim (Bool-cases (has_row name rows)) [
  | inl later ↦ if_none-IsDone (latest name rows) _ (latest-IsDone name rows h.1 later)
  | inr gone ↦
      let here : (row.plugin == name) ≡ true = ground arith in
      simp (latest-none name rows gone, here) h.0
]

-- The row that UpdatePluginStatusBySession adds for a completed plugin.
abbrev pub saved_row : {C : Type 0} → Env → VerificationSession C → String → PluginStatus
saved_row env s name = record (session_status s name completed) {
  id = env.uuid 1;
  created_at = env.now;
  updated_at = env.now;
}

module _ {C : Type 0} where
  save_status-completed :
      (env : Env) (s : VerificationSession C) (name : String) (rows : List PluginStatus)
      → save_status env (session_status s name completed) rows ≡ rows ++ saved_row env s name ∷ []
  unfolding save_status
  save_status-completed env s name rows = refl

  own_filter-saved :
      (env : Env) (s : VerificationSession C) (name : String)
      → own_filter s s.user_id (saved_row env s name) ≡ true
  own_filter-saved env s name = by_user s.user_id
    where
      by_user :
          (u : Option String)
          → own_filter s u (record (saved_row env s name) {
            user_id = u;
            identifier = identifier_unless u s.identifier;
            identifier_type = identifier_unless u s.identifier_type;
          })
            ≡ true
      by_user none =
          simp (eq_refl s.app_id, eq_refl s.identifier, eq_refl s.identifier_type, eq_refl s.action)
      by_user (some u) = simp (eq_refl s.app_id, eq_refl u, eq_refl s.action)

  -- What the session owns after a plugin is completed.
  pub own-save :
      (env : Env) (s : VerificationSession C) (name : String) (rows : List PluginStatus)
      → own s (save_status env (session_status s name completed) rows)
        ≡ own s rows ++ saved_row env s name ∷ []
  unfolding keep
  own-save env s name rows =
      rw (save_status-completed env s name rows, keep-append (own_filter s s.user_id) rows)
        (simp (own_filter-saved env s name))

  pub get_statuses_by_session-own :
      (env : Env) (s : VerificationSession C) (rows : List PluginStatus)
      → get_statuses_by_session env s rows ≡ env.listed (own s rows)
  unfolding get_statuses_by_session list_status list_status_by_identifier
  get_statuses_by_session-own env s rows = by_user s.user_id
    where
      by_user :
          (u : Option String) → listed_for env s u rows ≡ env.listed (keep (own_filter s u) rows)
      by_user none = refl
      by_user (some u) = refl
