-- ===== src/Audit/Reader.antt =====
-- internal/audit/reader.go
use Prim.Native.Char.{code}
use text.Mathlib.Text.{starts_with}
use lauth.Prelude.{
  ℕ, ◌+◌, ◌-◌, String, ◌==◌, Bool, true, false, not, ◌&&◌, ◌||◌, Option, none, some, List, [], ◌∷◌,
  ◌++◌, length, keep, take, drop, ltb, leb, eqb, if◌then◌else◌,
}
use lauth.Prelude.Dict.{Dict, lookup, insert}
use lauth.Audit.Log.{AuditLog, Env, Date, LogPath, LogFileInfo, LogIndex, AppLogStats, path_text}
use lauth.Audit.HashChain.{verify_chain}
use lauth.Audit.Writer.{LogFile, Disk, same_path, count_of}

-- QueryParams
pub record QueryParams : Type 0 where
  pub start_time : Option ℕ
  pub end_time : Option ℕ
  pub event_types : List String
  pub user_id : String
  pub app_id : String
  pub client_ip : String
  pub status_code : ℕ
  pub limit : ℕ
  pub offset : ℕ

-- Reader: the indexes that were loaded are kept.
pub record Reader : Type 0 where
  pub indexes : Dict LogIndex

abbrev before : ℕ → Option ℕ → Bool
before t none = false
before t (some bound) = ltb t bound

abbrev after : ℕ → Option ℕ → Bool
after t none = false
after t (some bound) = ltb bound t

-- checkTimeRange
unfoldable pub check_time_range : AuditLog → QueryParams → Bool
check_time_range log q =
    if before log.timestamp q.start_time
    then false
    else if after log.timestamp q.end_time
    then false
    else true

abbrev pub text_in : String → List String → Bool
text_in t [] = false
text_in t (x ∷ xs) = t == x || text_in t xs

-- checkEventType
unfoldable pub check_event_type : AuditLog → QueryParams → Bool
check_event_type log q =
    if eqb (length q.event_types) 0 then true else text_in log.event_type q.event_types

-- checkBasicFields
unfoldable pub check_basic_fields : AuditLog → QueryParams → Bool
check_basic_fields log q =
    if not (q.user_id == "") && not (log.user_id == q.user_id)
    then false
    else if not (q.app_id == "") && not (log.app_id == q.app_id)
    then false
    else if not (q.client_ip == "") && not (log.client_ip == q.client_ip)
    then false
    else if not (eqb q.status_code 0) && not (eqb log.status_code q.status_code)
    then false
    else true

-- matchFilters
unfoldable pub match_filters : AuditLog → QueryParams → Bool
match_filters log q = check_time_range log q && check_event_type log q && check_basic_fields log q

abbrev has_event : Dict ℕ → List String → Bool
has_event events [] = false
has_event events (t ∷ ts) = ltb 0 (count_of (lookup t events)) || has_event events ts

-- isFileRelevant
unfoldable pub is_file_relevant : LogFileInfo → QueryParams → Bool
is_file_relevant info q =
    if before info.end_time q.start_time
    then false
    else if after info.start_time q.end_time
    then false
    else if eqb (length q.event_types) 0
    then true
    else has_event info.events q.event_types

-- readFile, of a file that can be read and whose lines all parse
unfoldable pub read_file : LogFile → QueryParams → List AuditLog
read_file f q = keep (λ log. match_filters log q) f.lines

unfoldable pub find_file : LogPath → List LogFile → Option LogFile
find_file p [] = none
find_file p (f ∷ fs) = if same_path f.path p then some f else find_file p fs

abbrev pub add_file : Option LogFile → QueryParams → Option (List AuditLog) → Option (List AuditLog)
add_file (some f) q (some logs) = some (read_file f q ++ logs)
add_file _ q _ = none

-- readHistoricalLogs; nothing where a file that the index names is missing.
unfoldable pub read_historical :
    List LogFileInfo → QueryParams → List LogFile → Option (List AuditLog)
read_historical [] q fs = some []
read_historical (info ∷ infos) q fs =
    let rest = read_historical infos q fs in
    if is_file_relevant info q then add_file (find_file info.path fs) q rest else rest

abbrev pub same_day : Date → Date → Bool
same_day a b = eqb a.year b.year && eqb a.month b.month && eqb a.day b.day

abbrev pub is_current : String → Date → LogFile → Bool
is_current app today f =
    f.path.app_id == app && same_day f.path.on today && starts_with f.path.name "audit-"

abbrev pub read_files : List LogFile → QueryParams → List AuditLog
read_files [] q = []
read_files (f ∷ fs) q = read_file f q ++ read_files fs q

-- scanCurrentDayLogs
unfoldable pub scan_current_day : String → Date → QueryParams → List LogFile → List AuditLog
scan_current_day app today q fs = read_files (keep (is_current app today) fs) q

-- sort.Slice by the time; entries of one time may come in any order, and here keep theirs.
unfoldable pub insert_by_time : AuditLog → List AuditLog → List AuditLog
insert_by_time log [] = log ∷ []
insert_by_time log (x ∷ xs) =
    if ltb x.timestamp log.timestamp then x ∷ insert_by_time log xs else log ∷ x ∷ xs

unfoldable pub sort_by_time : List AuditLog → List AuditLog
sort_by_time [] = []
sort_by_time (log ∷ logs) = insert_by_time log (sort_by_time logs)

abbrev pub has_char : ℕ → String → Bool
has_char k String.[] = false
has_char k (String.◌∷◌ c s) = eqb (code c) k || has_char k s

-- strings.Contains(s, "..")
abbrev pub has_dots : String → Bool
has_dots String.[] = false
has_dots (String.◌∷◌ c s) = (eqb (code c) b'.' && starts_with s ".") || has_dots s

-- A name with `/`, `\` or `..` is refused, by validateAppID and by VerifyLogFile.
unfoldable pub is_unsafe : String → Bool
is_unsafe s = has_char b'/' s || has_char 0x5c s || has_dots s

pub data ReadError : Type 0 where
  invalid_app_id invalid_file_name missing_file : ReadError

pub data ReadResult (A : Type 0) : Type 0 where
  ok : A → ReadResult A
  err : ReadError → ReadResult A

abbrev pub kept_or_saved :
    String → Reader → Option LogIndex → Option LogIndex → Option LogIndex × Reader
kept_or_saved app r (some index) saved = (some index, r)
kept_or_saved app r none (some index) =
    (some index, record r { indexes = insert app index r.indexes })
kept_or_saved app r none none = (none, r)

-- loadIndex: the kept index, else the saved one, which is kept from then on.
unfoldable pub load_index : String → Reader → Disk → Option LogIndex × Reader
load_index app r disk = kept_or_saved app r (lookup app r.indexes) (lookup app disk.indexes)

abbrev merge_logs : Option (List AuditLog) → List AuditLog → ReadResult (List AuditLog)
merge_logs none current = err missing_file
merge_logs (some old) current = ok (sort_by_time (old ++ current))

-- readAppLogs with what loadIndex gives
abbrev pub read_indexed :
    String
    → Date
    → QueryParams
    → Disk
    → Option LogIndex × Reader
    → ReadResult (List AuditLog) × Reader
read_indexed app today q disk (none, r) = (ok [], r)
read_indexed app today q disk (some i, r) = (
  merge_logs (read_historical i.files q disk.log_files)
      (scan_current_day app today q disk.log_files),
  r,
)

-- readAppLogs
unfoldable pub read_app_logs :
    String → Date → QueryParams → Reader → Disk → ReadResult (List AuditLog) × Reader
read_app_logs app today q r disk =
    if is_unsafe app
    then (err invalid_app_id, r)
    else read_indexed app today q disk (load_index app r disk)

-- The slice `logs[offset:end]` at the end of `ReadLogs`.
abbrev pub page : ℕ → ℕ → List AuditLog → List AuditLog
page offset limit logs =
    if leb (length logs) offset
    then []
    else let end = if ltb (length logs) (offset + limit) then length logs else offset + limit in
      take (end - offset) (drop offset logs)

abbrev join_logs : List AuditLog → ReadResult (List AuditLog) → ReadResult (List AuditLog)
join_logs a (ok b) = ok (a ++ b)
join_logs a (err e) = err e

-- The loop of `ReadLogs` over the applications.
unfoldable pub read_all_apps :
    List String → Date → QueryParams → Reader → Disk → ReadResult (List AuditLog) × Reader
read_all_apps [] today q r disk = (ok [], r)
read_all_apps (app ∷ apps) today q r disk =
    let (here, r') = read_app_logs app today q r disk in
    let later = read_all_apps apps today q r' disk in
    elim here [ ok logs ↦ (join_logs logs later.0, later.1) | err e ↦ (err e, r') ]

abbrev sorted_page : QueryParams → ReadResult (List AuditLog) → ReadResult (List AuditLog)
sorted_page q (err e) = err e
sorted_page q (ok logs) = ok (page q.offset q.limit (sort_by_time logs))

-- ReadLogs; `apps` is what listApps finds.
unfoldable pub read_logs :
    List String → Date → QueryParams → Reader → Disk → ReadResult (List AuditLog) × Reader
read_logs apps today q r disk =
    if not (q.app_id == "")
    then read_app_logs q.app_id today q r disk
    else let (logs, r') = read_all_apps apps today q r disk in (sorted_page q logs, r')

abbrev stats_or_none : Option AppLogStats → AppLogStats
stats_or_none none = record { total_logs = 0; event_stats = []; size = 0 }
stats_or_none (some s) = s

abbrev indexed_stats : String → Option LogIndex → AppLogStats
indexed_stats app none = stats_or_none none
indexed_stats app (some i) = stats_or_none (lookup app i.app_stats)

-- GetStats
unfoldable pub get_stats : String → Reader → Disk → AppLogStats × Reader
get_stats app r disk = let (index, r') = load_index app r disk in (indexed_stats app index, r')

module _ (env : Env) where
  unfoldable pub find_named : String → List LogFile → Option LogFile
  find_named name [] = none
  find_named name (f ∷ fs) = if path_text env f.path == name then some f else find_named name fs

  -- VerifyLogFile
  unfoldable pub verify_log_file : String → Disk → ReadResult Bool
  unfolding is_unsafe
  verify_log_file name disk =
      if is_unsafe name then err invalid_file_name else elim (find_named name disk.log_files) [
        | none ↦ err missing_file
        | some f ↦ ok (verify_chain env f.lines)
      ]
