-- ===== src/Tests/Audit.antt =====
-- Tests of internal/audit.
use lauth.Prelude.{
  String, ◌==◌, differ, text_eq, num_eq, and_true, ◌≡◌, ◌≢◌, refl, sym, ◌∙◌, inl, inr, Bool, true,
  false, ◌&&◌, Option, none, some, List, [], ◌∷◌, map, keep, eqb, if◌then◌else◌, Bool-cases,
}
use lauth.Audit.Log.{AuditLog, Env, Date, LogPath}
use lauth.Audit.HashChain.{
  digest, new_hash_chain, calculate_hash, add_log, verify_log, verify_links, verify_chain,
}
use lauth.Audit.Tamper.{cleared, bare, add_logs, verify_chain-add_logs, verify_chain_unique}
use lauth.Audit.Writer.{LogFile, Disk, Io}
use lauth.Audit.Log.{LogIndex}
use lauth.Audit.Reader.{QueryParams, Reader}
use lauth.Audit.Indexing.{Request}
use lauth.Audit.Interleaved.{interleaved_fails}

abbrev entry : String → String → String → AuditLog
entry id app prev = record {
  id = id;
  timestamp = 7;
  event_type = "login";
  user_id = "u";
  app_id = app;
  client_ip = "";
  request_method = "POST";
  request_path = "/login";
  request_query = "";
  user_agent = "";
  status_code = 200;
  details = "{}";
  prev_hash = prev;
  hash = "";
}

same_log : AuditLog → AuditLog → Bool
same_log a b =
    (a.id == b.id)
    && ((eqb a.timestamp b.timestamp)
        && ((a.event_type == b.event_type)
            && ((a.user_id == b.user_id)
                && ((a.app_id == b.app_id)
                    && ((a.client_ip == b.client_ip)
                        && ((a.request_method == b.request_method)
                            && ((a.request_path == b.request_path)
                                && ((a.request_query == b.request_query)
                                    && ((a.user_agent == b.user_agent)
                                        && ((eqb a.status_code b.status_code)
                                            && ((a.details == b.details)
                                                && ((a.prev_hash == b.prev_hash)
                                                    && (a.hash == b.hash)))))))))))))

same_log_sound : (a b : AuditLog) → same_log a b ≡ true → a ≡ b
unfolding same_log
same_log_sound a b h0 =
    let (e0, h1) = and_true _ _ h0 in
    let (e1, h2) = and_true _ _ h1 in
    let (e2, h3) = and_true _ _ h2 in
    let (e3, h4) = and_true _ _ h3 in
    let (e4, h5) = and_true _ _ h4 in
    let (e5, h6) = and_true _ _ h5 in
    let (e6, h7) = and_true _ _ h6 in
    let (e7, h8) = and_true _ _ h7 in
    let (e8, h9) = and_true _ _ h8 in
    let (e9, h10) = and_true _ _ h9 in
    let (e10, h11) = and_true _ _ h10 in
    let (e11, h12) = and_true _ _ h11 in
    let (e12, h13) = and_true _ _ h12 in
    λ i. record {
      id = text_eq a.id b.id e0 i;
      timestamp = num_eq a.timestamp b.timestamp e1 i;
      event_type = text_eq a.event_type b.event_type e2 i;
      user_id = text_eq a.user_id b.user_id e3 i;
      app_id = text_eq a.app_id b.app_id e4 i;
      client_ip = text_eq a.client_ip b.client_ip e5 i;
      request_method = text_eq a.request_method b.request_method e6 i;
      request_path = text_eq a.request_path b.request_path e7 i;
      request_query = text_eq a.request_query b.request_query e8 i;
      user_agent = text_eq a.user_agent b.user_agent e9 i;
      status_code = num_eq a.status_code b.status_code e10 i;
      details = text_eq a.details b.details e11 i;
      prev_hash = text_eq a.prev_hash b.prev_hash e12 i;
      hash = text_eq a.hash b.hash h13 i;
    }

-- Three entries that have a JSON text, the middle one of another application.
abbrev first : AuditLog
first = entry "1" "a" ""

abbrev second : AuditLog
second = entry "2" "b" "h1"

abbrev third : AuditLog
third = entry "3" "a" "h2"

table : AuditLog → Option String
unfolding same_log
table log =
    if same_log log first
    then some "h1"
    else if same_log log second
    then some "h2"
    else if same_log log third
    then some "h3"
    else none

abbrev env : Env
env = record {
  encode = table;
  sha256 = λ text. text;
  date = λ t. record { year = 2024; month = 5; day = t };
  stamp = λ t. "20240501-000000";
  pad = λ w n. "0";
}

-- A hash that is not empty tells which entry it is of.
data TagOf (log : AuditLog) : Type 0 where
  one : log ≡ first → table log ≡ some "h1" → TagOf log
  two : log ≡ second → table log ≡ some "h2" → TagOf log
  three : log ≡ third → table log ≡ some "h3" → TagOf log
  untold : table log ≡ none → TagOf log

tag_of : (log : AuditLog) → TagOf log
unfolding table
tag_of log = elim (Bool-cases (same_log log first)) [
  | inl e ↦ one (same_log_sound log first e) (rw e)
  | inr e ↦ elim (Bool-cases (same_log log second)) [
    | inl f ↦ two (same_log_sound log second f) (rw (e, f))
    | inr f ↦ elim (Bool-cases (same_log log third)) [
      | inl g ↦ three (same_log_sound log third g) (rw (e, f, g))
      | inr g ↦ untold (rw (e, f, g))
    ]
  ]
]

tagged :
    (a b : AuditLog)
    → TagOf a
    → TagOf b
    → digest env (table a) ≡ digest env (table b)
    → digest env (table a) ≢ ""
    → a ≡ b
tagged a b (one p h) (one q k) e n = p ∙ sym q
tagged a b (one p h) (two q k) e n = absurd (differ "h1" "h2" refl (rw (h, k) at e))
tagged a b (one p h) (three q k) e n = absurd (differ "h1" "h3" refl (rw (h, k) at e))
tagged a b (one p h) (untold k) e n = absurd (differ "h1" "" refl (rw (h, k) at e))
tagged a b (two p h) (one q k) e n = absurd (differ "h2" "h1" refl (rw (h, k) at e))
tagged a b (two p h) (two q k) e n = p ∙ sym q
tagged a b (two p h) (three q k) e n = absurd (differ "h2" "h3" refl (rw (h, k) at e))
tagged a b (two p h) (untold k) e n = absurd (differ "h2" "" refl (rw (h, k) at e))
tagged a b (three p h) (one q k) e n = absurd (differ "h3" "h1" refl (rw (h, k) at e))
tagged a b (three p h) (two q k) e n = absurd (differ "h3" "h2" refl (rw (h, k) at e))
tagged a b (three p h) (three q k) e n = p ∙ sym q
tagged a b (three p h) (untold k) e n = absurd (differ "h3" "" refl (rw (h, k) at e))
tagged a b (untold h) t e n = absurd (n (rw h))

no_collision :
    (a b : AuditLog)
    → calculate_hash env a ≡ calculate_hash env b
    → calculate_hash env a ≢ ""
    → cleared a ≡ cleared b
unfolding calculate_hash
no_collision a b e n = tagged (cleared a) (cleared b) (tag_of (cleared a)) (tag_of (cleared b)) e n

abbrev sealed : AuditLog → String → AuditLog
sealed log hash = record log { hash = hash }

abbrev entries : List AuditLog
entries = sealed first "h1" ∷ sealed second "h2" ∷ sealed third "h3" ∷ []

verify_chain-add_logs_example :
    (verify_chain env entries ≡ true)
    × (map (bare env) entries ≡ map (bare env) (first ∷ second ∷ third ∷ []))
unfolding add_logs add_log calculate_hash table same_log
verify_chain-add_logs_example =
    verify_chain-add_logs env (first ∷ second ∷ third ∷ []) new_hash_chain entries
      (record { last_hash = "h3" }) refl

verify_chain_unique_example : entries ≡ entries
unfolding verify_chain verify_log verify_links calculate_hash table same_log
verify_chain_unique_example =
    verify_chain_unique env no_collision (sealed second "h2" ∷ sealed third "h3" ∷ [])
      (sealed second "h2" ∷ sealed third "h3" ∷ []) (sealed first "h1") (sealed first "h1") refl
      refl refl refl

interleaved_fails_example : verify_chain env (keep (λ l. l.app_id == "a") entries) ≡ false
unfolding add_logs add_log calculate_hash table same_log
interleaved_fails_example =
    interleaved_fails env no_collision first second third new_hash_chain entries
      (record { last_hash = "h3" }) refl (differ "a" "b" refl) refl

abbrev day : Date
day = record { year = 2024; month = 5; day = 7 }

abbrev path : LogPath
path = record { app_id = "a"; on = day; name = "audit-1.log" }

abbrev file : LogFile
file = record { path = path; lines = entries }

abbrev index : LogIndex
index = record { start_time = 7; end_time = 7; files = []; stats = []; app_stats = [] }

abbrev disk : Disk
disk = record { log_files = file ∷ []; indexes = ("a", index) ∷ [] }

abbrev query : QueryParams
query = record {
  start_time = some 5;
  end_time = none;
  event_types = "login" ∷ [];
  user_id = "";
  app_id = "a";
  client_ip = "";
  status_code = 0;
  limit = 10;
  offset = 0;
}

abbrev all_works : Io
all_works = record { mkdir = true; open_file = true; write_file = true; save_index = true }

abbrev no_reader : Reader
no_reader = record { indexes = [] }

abbrev post : Request
post = record { io = all_works; uuid = "1"; now = 7; log = first }
