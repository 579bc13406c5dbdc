-- ===== src/Audit/Indexing.antt =====
-- The index that internal/audit/writer.go keeps names no file, so the reader never opens one of
-- an earlier day.
use Prim.Native.String.{len}
use lauth.Prelude.{
  ℕ, ◌+◌, String, ◌≡◌, refl, ◌⊎◌, inl, inr, Bool, true, false, Option, none, some, List, [], ◌∷◌,
  arith, leb, Bool-cases,
}
use lauth.Prelude.Dict.{Dict, lookup, insert, lookup-insert}
use lauth.Audit.Log.{AuditLog, Env, Date, LogPath, LogIndex}
use lauth.Audit.HashChain.{HashChain, add_log}
use lauth.Audit.Writer.{
  Disk, Writer, Io, count_of, indexed, update_index, rotate, rotate_if_full, get_current_file,
  write_line, write_to, write_text, file_or_new, write, new_writer, with_defaults, finish,
}
use lauth.Audit.Reader.{
  QueryParams, Reader, ok, err, is_unsafe, load_index, read_historical, scan_current_day,
  sort_by_time, read_app_logs, read_indexed, kept_or_saved, invalid_app_id,
}

-- No index of the map names a file.
abbrev pub Unlisted : Dict LogIndex → Type 0
Unlisted m = (app : String) (i : LogIndex) → lookup app m ≡ some i → i.files ≡ []

abbrev pub IsUnlisted : Writer → Disk → Type 0
IsUnlisted w disk = Unlisted w.indexes × Unlisted disk.indexes

files-indexed :
    (log : AuditLog) (size : ℕ) (old : Option LogIndex)
    → ((i : LogIndex) → old ≡ some i → i.files ≡ [])
    → (indexed log size old).files ≡ []
unfolding indexed
files-indexed log size none h = refl
files-indexed log size (some i) h = h i refl

Unlisted-insert :
    (m : Dict LogIndex) (app : String) (i : LogIndex)
    → Unlisted m
    → i.files ≡ []
    → Unlisted (insert app i m)
Unlisted-insert m app i h e j k found = ground (arith, lookup-insert j app i m, h j k)

update_index-IsUnlisted :
    (io : Io) (log : AuditLog) (w : Writer) (disk : Disk)
    → IsUnlisted w disk
    → let (_, w', disk') = update_index io log w disk in IsUnlisted w' disk'
unfolding update_index
update_index-IsUnlisted io log w disk h =
    let size = count_of (lookup log.app_id w.current_sizes) in
    let index = indexed log size (lookup log.app_id w.indexes) in
    let none_named = files-indexed log size (lookup log.app_id w.indexes) (h.0 log.app_id) in
    let kept = Unlisted-insert w.indexes log.app_id index h.0 none_named in
    elim (Bool-cases io.save_index) [
      | inl e ↦ simp e (kept, Unlisted-insert disk.indexes log.app_id index h.1 none_named)
      | inr e ↦ simp e (kept, h.1)
    ]

rotate-IsUnlisted :
    (app : String) (w : Writer) (disk : Disk)
    → IsUnlisted w disk
    → IsUnlisted (rotate_if_full app w) disk
unfolding rotate
rotate-IsUnlisted app w disk h =
    elim (Bool-cases (leb w.rotate_size (count_of (lookup app w.current_sizes)))) [
      | inl e ↦ simp e h
      | inr e ↦ simp e h
    ]

finish-IsUnlisted :
    (app : String) (r : Bool × Writer × Disk)
    → IsUnlisted r.1 r.2
    → IsUnlisted (finish app r).1 (finish app r).2
finish-IsUnlisted app (true, w, disk) h = rotate-IsUnlisted app w disk h
finish-IsUnlisted app (false, w, disk) h = h

module _ (env : Env) (io : Io) where
  write_line-IsUnlisted :
      (log : AuditLog) (size : ℕ) (path : LogPath) (w : Writer) (disk : Disk)
      → IsUnlisted w disk
      → let (_, w', disk') = write_line env io log size path w disk in IsUnlisted w' disk'
  unfolding write_line
  write_line-IsUnlisted log size path w disk h = elim (Bool-cases io.write_file) [
    | inl e ↦ simp e (finish-IsUnlisted log.app_id _ (update_index-IsUnlisted io log _ _ h))
    | inr e ↦ simp e h
  ]

  file_or_new-IsUnlisted :
      (can : Bool) (app : String) (new : LogPath) (old : Option LogPath) (w : Writer) (disk : Disk)
      → IsUnlisted w disk
      → let (_, w', disk') = file_or_new can app new old w disk in IsUnlisted w' disk'
  file_or_new-IsUnlisted can app new (some path) w disk h = h
  file_or_new-IsUnlisted true app new none w disk h = h
  file_or_new-IsUnlisted false app new none w disk h = h

  write_text-IsUnlisted :
      (log : AuditLog) (path : LogPath) (w : Writer) (disk : Disk) (text : Option String)
      → IsUnlisted w disk
      → let (_, w', disk') = write_text env io log path w disk text in IsUnlisted w' disk'
  write_text-IsUnlisted log path w disk none h = h
  write_text-IsUnlisted log path w disk (some text) h =
      write_line-IsUnlisted log (len text + 1) path w disk h

  write_to-IsUnlisted :
      (log : AuditLog) (r : Option LogPath × Writer × Disk)
      → IsUnlisted r.1 r.2
      → let (_, w', disk') = write_to env io log r in IsUnlisted w' disk'
  write_to-IsUnlisted log (none, w, disk) h = h
  write_to-IsUnlisted log (some path, w, disk) h =
      write_text-IsUnlisted log path w disk (env.encode log) h

  -- A writer whose indexes name no file keeps it so, whatever call of the system fails.
  write-IsUnlisted :
      (uuid : String) (now : ℕ) (log : AuditLog) (w : Writer) (disk : Disk)
      → IsUnlisted w disk
      → let (_, w', disk') = write env io uuid now log w disk in IsUnlisted w' disk'
  unfolding write get_current_file
  write-IsUnlisted uuid now log w disk h =
      let (done, entry, hc) = add_log env (with_defaults uuid now log) w.hash_chain in
      elim (Bool-cases (add_log env (with_defaults uuid now log) w.hash_chain).0) [
        | inl e ↦ simp e (
            write_to-IsUnlisted entry _
              (file_or_new-IsUnlisted _ entry.app_id _ _ (record w { hash_chain = hc }) disk h))
        | inr e ↦ simp e h
      ]

-- One call of `Write`, with what the system gives to it.
pub record Request : Type 0 where
  pub io : Io
  pub uuid : String
  pub now : ℕ
  pub log : AuditLog

abbrev pub empty_disk : Disk
empty_disk = record { log_files = []; indexes = [] }

module _ (env : Env) where
  -- Calls of `Write`, whether they succeed or not.
  pub write_all : List Request → Writer × Disk → Writer × Disk
  write_all [] s = s
  write_all (q ∷ qs) (w, disk) =
      let (_, w', disk') = write env q.io q.uuid q.now q.log w disk in write_all qs (w', disk')

  write_all-IsUnlisted :
      (qs : List Request) (s : Writer × Disk)
      → IsUnlisted s.0 s.1
      → IsUnlisted (write_all qs s).0 (write_all qs s).1
  unfolding write_all
  write_all-IsUnlisted [] s h = h
  write_all-IsUnlisted (q ∷ qs) (w, disk) h =
      write_all-IsUnlisted qs _ (write-IsUnlisted env q.io q.uuid q.now q.log w disk h)

  Unlisted-nil : Unlisted []
  unfolding lookup
  Unlisted-nil app i e = cc

  read_saved :
      (app : String) (today : Date) (q : QueryParams) (disk : Disk) (saved : Option LogIndex)
      → ((i : LogIndex) → saved ≡ some i → i.files ≡ [])
      → let r : Reader = record { indexes = [] } in
        let answer = (read_indexed app today q disk (kept_or_saved app r none saved)).0 in
        (answer ≡ ok [])
        ⊎ (answer ≡ ok (sort_by_time (scan_current_day app today q disk.log_files)))
  unfolding read_historical
  read_saved app today q disk none h = inl refl
  read_saved app today q disk (some i) h = inr (rw (h i refl) refl)

  -- Whatever a new writer has written, a new reader answers a query about one application with
  -- an error for an unsafe name, with nothing, or with the matching entries of the files of the
  -- current day: it never opens a file of an earlier day.
  pub read_app_logs-today :
      (qs : List Request) (rotate_size : ℕ) (hc : HashChain) (app : String) (today : Date)
      (q : QueryParams)
      → let disk = (write_all qs (new_writer rotate_size hc, empty_disk)).1 in
        let answer = (read_app_logs app today q (record { indexes = [] }) disk).0 in
        (answer ≡ err invalid_app_id)
        ⊎ (answer ≡ ok [])
        ⊎ (answer ≡ ok (sort_by_time (scan_current_day app today q disk.log_files)))
  unfolding read_app_logs load_index lookup
  read_app_logs-today qs rotate_size hc app today q =
      let start : Writer × Disk = (new_writer rotate_size hc, empty_disk) in
      let disk = (write_all qs start).1 in
      let unlisted = write_all-IsUnlisted qs start (Unlisted-nil, Unlisted-nil) in
      elim (Bool-cases (is_unsafe app)) [
        | inl e ↦ inl (simp e)
        | inr e ↦
            inr (simp e (read_saved app today q disk (lookup app disk.indexes) (unlisted.1 app)))
      ]
