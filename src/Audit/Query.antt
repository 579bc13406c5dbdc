-- ===== src/Audit/Query.antt =====
-- What a query of internal/audit/reader.go selects, and in which order.
use lauth.Prelude.{
  ℕ, ◌≤◌, String, eq_iff, ◌≡◌, refl, ◌↔◌, ◌⊎◌, inl, inr, true, Option, none, some, List, [], ◌∷◌,
  arith, All, Any, All-mono, Any-mono, Any-append_iff, Any-keep_iff, length, keep, ltb, eqb,
  if◌then◌else◌, Bool-cases,
}
use lauth.Audit.Log.{AuditLog, Date}
use lauth.Audit.Writer.{LogFile}
use lauth.Audit.Reader.{
  QueryParams, check_time_range, check_event_type, check_basic_fields, match_filters, text_in,
  read_file, read_files, is_current, scan_current_day, insert_by_time, sort_by_time,
}

abbrev pub AtOrAfter : ℕ → Option ℕ → Type 0
AtOrAfter t none = Unit
AtOrAfter t (some bound) = bound ≤ t

abbrev pub AtOrBefore : ℕ → Option ℕ → Type 0
AtOrBefore t none = Unit
AtOrBefore t (some bound) = t ≤ bound

abbrev pub OneOf : String → List String → Type 0
OneOf t [] = Unit
OneOf t (x ∷ xs) = Any (λ y. t ≡ y) (x ∷ xs)

-- A text of the query that is empty asks for nothing.
abbrev pub Asked : String → String → Type 0
Asked wanted given = (wanted ≡ "") ⊎ (given ≡ wanted)

-- The entry meets every part of the query.
pub record Matches (log : AuditLog) (q : QueryParams) : Type 0 where
  pub from : AtOrAfter log.timestamp q.start_time
  pub until : AtOrBefore log.timestamp q.end_time
  pub event : OneOf log.event_type q.event_types
  pub user : Asked q.user_id log.user_id
  pub app : Asked q.app_id log.app_id
  pub client : Asked q.client_ip log.client_ip
  pub status : (q.status_code ≡ 0) ⊎ (log.status_code ≡ q.status_code)

module _ (log : AuditLog) (q : QueryParams) where
  time_iff :
      (check_time_range log q ≡ true)
      ↔ (AtOrAfter log.timestamp q.start_time × AtOrBefore log.timestamp q.end_time)
  unfolding check_time_range
  time_iff = ground arith

  text_in_iff : (t : String) (xs : List String) → (text_in t xs ≡ true) ↔ Any (λ y. t ≡ y) xs
  text_in_iff t [] = (λ h. cc, λ h. absurd h)
  text_in_iff t (x ∷ xs) = ground (arith, eq_iff t x, text_in_iff t xs)

  event_cases :
      (t : String) (xs : List String)
      → ((if eqb (length xs) 0 then true else text_in t xs) ≡ true) ↔ OneOf t xs
  event_cases t [] = (λ h. tt, λ h. refl)
  event_cases t (x ∷ xs) = ground (arith, text_in_iff t (x ∷ xs))

  event_iff : (check_event_type log q ≡ true) ↔ OneOf log.event_type q.event_types
  unfolding check_event_type
  event_iff = event_cases log.event_type q.event_types

  basic_iff : (check_basic_fields log q ≡ true) ↔ (
      Asked q.user_id log.user_id
      × Asked q.app_id log.app_id
      × Asked q.client_ip log.client_ip
      × ((q.status_code ≡ 0) ⊎ (log.status_code ≡ q.status_code)))
  unfolding check_basic_fields
  basic_iff = ground (
    arith,
    eq_iff q.user_id "",
    eq_iff q.app_id "",
    eq_iff q.client_ip "",
    eq_iff log.user_id q.user_id,
    eq_iff log.app_id q.app_id,
    eq_iff log.client_ip q.client_ip,
  )

  -- The filter of the reader passes an entry exactly when it meets every part of the query.
  pub match_filters_iff : (match_filters log q ≡ true) ↔ Matches log q
  unfolding match_filters
  match_filters_iff = ground (arith, time_iff, event_iff, basic_iff)

abbrev pub IsRising : List AuditLog → Type 0
IsRising [] = Unit
IsRising (x ∷ xs) = All (λ y. x.timestamp ≤ y.timestamp) xs × IsRising xs

All-insert :
    (P : AuditLog → Type 0) (log : AuditLog) (xs : List AuditLog)
    → P log
    → All P xs
    → All P (insert_by_time log xs)
unfolding insert_by_time
All-insert P log [] p h = (p, tt)
All-insert P log (x ∷ xs) p h = ground (arith, All-insert P log xs p)

insert-IsRising :
    (log : AuditLog) (xs : List AuditLog) → IsRising xs → IsRising (insert_by_time log xs)
unfolding insert_by_time
insert-IsRising log [] h = (tt, tt)
insert-IsRising log (x ∷ xs) h = elim (Bool-cases (ltb x.timestamp log.timestamp)) [
  | inl e ↦ simp e (
    All-insert (λ y. x.timestamp ≤ y.timestamp) log xs (ground arith) h.0,
    insert-IsRising log xs h.1,
  )
  | inr e ↦ simp e ((ground arith, All-mono _ _ xs (λ y k. ground arith) h.0), h)
]

sort-IsRising : (xs : List AuditLog) → IsRising (sort_by_time xs)
unfolding sort_by_time
sort-IsRising [] = tt
sort-IsRising (x ∷ xs) = insert-IsRising x (sort_by_time xs) (sort-IsRising xs)

module _ (P : AuditLog → Type 0) where
  Any-insert_iff :
      (log : AuditLog) (xs : List AuditLog) → Any P (insert_by_time log xs) ↔ (P log ⊎ Any P xs)
  unfolding insert_by_time
  Any-insert_iff log [] = ground arith
  Any-insert_iff log (x ∷ xs) = ground (arith, Any-insert_iff log xs)

  Any-sort_iff : (xs : List AuditLog) → Any P (sort_by_time xs) ↔ Any P xs
  unfolding sort_by_time
  Any-sort_iff [] = (λ h. h, λ h. h)
  Any-sort_iff (x ∷ xs) = ground (arith, Any-insert_iff x (sort_by_time xs), Any-sort_iff xs)

  Any-read_file_iff :
      (f : LogFile) (q : QueryParams)
      → Any P (read_file f q) ↔ Any (λ l. (match_filters l q ≡ true) × P l) f.lines
  unfolding read_file
  Any-read_file_iff f q = Any-keep_iff P (λ l. match_filters l q) f.lines

abbrev pub Selected : QueryParams → AuditLog → LogFile → Type 0
Selected q log f = Any (λ l. Matches l q × (l ≡ log)) f.lines

read_files_iff :
    (q : QueryParams) (log : AuditLog) (fs : List LogFile)
    → Any (λ l. l ≡ log) (read_files fs q) ↔ Any (Selected q log) fs
read_files_iff q log [] = (λ h. h, λ h. h)
read_files_iff q log (f ∷ fs) =
    let both = Any-append_iff (λ l. l ≡ log) (read_file f q) (read_files fs q) in
    let read = Any-read_file_iff (λ l. l ≡ log) f q in
    let here : Any (λ l. l ≡ log) (read_file f q) ↔ Selected q log f = (
      λ h. Any-mono _ _ f.lines (λ l k. ((match_filters_iff l q).0 k.0, k.1)) (read.0 h),
      λ h. read.1 (Any-mono _ _ f.lines (λ l k. ((match_filters_iff l q).1 k.0, k.1)) h),
    ) in
    let ih = read_files_iff q log fs in ground (arith, both, here, ih)

-- The answer over the files of a day is ordered by time, and it holds an entry exactly when that
-- entry meets every part of the query and stands in an audit file of the application and the day.
pub scan_answer :
    (app : String) (today : Date) (q : QueryParams) (fs : List LogFile) (log : AuditLog)
    → let answer = sort_by_time (scan_current_day app today q fs) in
      IsRising answer
      × (Any (λ l. l ≡ log) answer
          ↔ Any (λ f. (is_current app today f ≡ true) × Selected q log f) fs)
unfolding scan_current_day
scan_answer app today q fs log =
    let kept = keep (is_current app today) fs in
    let s = Any-sort_iff (λ l. l ≡ log) (read_files kept q) in
    let r = read_files_iff q log kept in
    let k = Any-keep_iff (Selected q log) (is_current app today) fs in
    (sort-IsRising (read_files kept q), (λ h. k.0 (r.0 (s.0 h)), λ h. s.1 (r.1 (k.1 h))))
