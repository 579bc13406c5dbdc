-- ===== src/Audit/Writer.antt =====
-- internal/audit/writer.go. A log file is the list of its lines, each the entry that it encodes.
use Prim.Native.String.{len}
use lauth.Prelude.{
  ℕ, ◌+◌, ◌*◌, String, ◌==◌, Bool, true, false, not, ◌&&◌, Option, none, some, List, [], ◌∷◌, ◌++◌,
  ltb, leb, eqb, if◌then◌else◌,
}
use lauth.Prelude.Dict.{Dict, lookup, insert, erase}
use lauth.Audit.Log.{AuditLog, Env, LogPath, new_log_path, LogIndex, AppLogStats}
use lauth.Audit.HashChain.{HashChain, add_log}

pub record LogFile : Type 0 where
  pub path : LogPath
  pub lines : List AuditLog

-- What the file system holds: the log files, and the index that was last saved of each application.
pub record Disk : Type 0 where
  pub log_files : List LogFile
  pub indexes : Dict LogIndex

-- Writer; of an open file its path is kept.
pub record Writer : Type 0 where
  pub current_files : Dict LogPath
  pub hash_chain : HashChain
  pub rotate_size : ℕ
  pub current_sizes : Dict ℕ
  pub indexes : Dict LogIndex

-- Which of the system calls of one `Write` succeed.
pub record Io : Type 0 where
  pub mkdir : Bool
  pub open_file : Bool
  pub write_file : Bool
  pub save_index : Bool

pub data WriteResult : Type 0 where
  written : WriteResult
  hash_failed open_failed marshal_failed write_failed index_failed : WriteResult

-- NewWriter, when the base directory could be made.
abbrev pub new_writer : ℕ → HashChain → Writer
new_writer rotate_size hc = record {
  current_files = [];
  hash_chain = hc;
  rotate_size = if eqb rotate_size 0 then 100 * 1024 * 1024 else rotate_size;
  current_sizes = [];
  indexes = [];
}

abbrev pub same_path : LogPath → LogPath → Bool
same_path p q =
    if p.app_id == q.app_id
    then (if p.name == q.name
        then (if eqb p.on.year q.on.year
            then (if eqb p.on.month q.on.month then eqb p.on.day q.on.day else false)
            else false)
        else false)
    else false

-- OpenFile with O_CREATE: the file is there afterwards.
unfoldable pub touch : LogPath → List LogFile → List LogFile
touch p [] = record { path = p; lines = [] } ∷ []
touch p (f ∷ fs) = if same_path f.path p then f ∷ fs else f ∷ touch p fs

-- A write with O_APPEND.
unfoldable pub append_line : LogPath → AuditLog → List LogFile → List LogFile
append_line p log [] = []
append_line p log (f ∷ fs) =
    if same_path f.path p
    then record f { lines = f.lines ++ log ∷ [] } ∷ fs
    else f ∷ append_line p log fs

-- The entry with its id, time and application filled in.
abbrev pub with_defaults : String → ℕ → AuditLog → AuditLog
with_defaults uuid now log = record log {
  id = if log.id == "" then uuid else log.id;
  timestamp = if eqb log.timestamp 0 then now else log.timestamp;
  app_id = if log.app_id == "" then "default" else log.app_id;
}

abbrev pub count_of : Option ℕ → ℕ
count_of none = 0
count_of (some n) = n

-- m[k]++
abbrev pub bump : String → Dict ℕ → Dict ℕ
bump k m = insert k (count_of (lookup k m) + 1) m

abbrev pub stats_of : Option AppLogStats → AppLogStats
stats_of none = record { total_logs = 0; event_stats = []; size = 0 }
stats_of (some s) = s

abbrev pub index_or_new : ℕ → Option LogIndex → LogIndex
index_or_new t none = record {
  start_time = t;
  end_time = t;
  files = [];
  stats = [];
  app_stats = [];
}
index_or_new t (some index) = index

-- The index of the entry's application, updated.
unfoldable pub indexed : AuditLog → ℕ → Option LogIndex → LogIndex
indexed log size old =
    let index = index_or_new log.timestamp old in
    let stats = stats_of (lookup log.app_id index.app_stats) in
    record index {
      start_time = if ltb log.timestamp index.start_time then log.timestamp else index.start_time;
      end_time = if ltb index.end_time log.timestamp then log.timestamp else index.end_time;
      stats = bump log.event_type index.stats;
      app_stats =
          insert log.app_id
            (record {
              total_logs = stats.total_logs + 1;
              event_stats = bump log.event_type stats.event_stats;
              size = size;
            })
            index.app_stats;
    }

-- updateIndex with saveIndex; false is its error.
unfoldable pub update_index : Io → AuditLog → Writer → Disk → Bool × Writer × Disk
update_index io log w disk =
    let index =
      indexed log (count_of (lookup log.app_id w.current_sizes)) (lookup log.app_id w.indexes) in
    let w' = record w { indexes = insert log.app_id index w.indexes } in
    if io.save_index
    then (true, w', record disk { indexes = insert log.app_id index disk.indexes })
    else (false, w', disk)

-- rotate
unfoldable pub rotate : String → Writer → Writer
rotate app w = record w {
  current_files = erase app w.current_files;
  current_sizes = erase app w.current_sizes;
}

-- The end of `Write`: the file is left once it has the size.
abbrev pub rotate_if_full : String → Writer → Writer
rotate_if_full app w =
    if leb w.rotate_size (count_of (lookup app w.current_sizes)) then rotate app w else w

-- The index is saved, or its error returned; then the file is rotated.
abbrev pub finish : String → Bool × Writer × Disk → WriteResult × Writer × Disk
finish app (true, w, disk) = (written, rotate_if_full app w, disk)
finish app (false, w, disk) = (index_failed, w, disk)

-- createNewFile where the application has no open file; `can` tells whether the directory and the
-- file could be made.
abbrev pub file_or_new :
    Bool → String → LogPath → Option LogPath → Writer → Disk → Option LogPath × Writer × Disk
file_or_new can app new (some path) w disk = (some path, w, disk)
file_or_new true app new none w disk = (
  some new,
  record w {
    current_files = insert app new w.current_files;
    current_sizes = insert app 0 w.current_sizes;
  },
  record disk { log_files = touch new disk.log_files },
)
file_or_new false app new none w disk = (none, w, disk)

module _ (env : Env) where
  -- getCurrentFile: the path of the open file, nothing on an error.
  unfoldable pub get_current_file : Io → String → ℕ → Writer → Disk → Option LogPath × Writer × Disk
  get_current_file io app t w disk =
      file_or_new (io.mkdir && io.open_file) app (new_log_path env app t)
        (lookup app w.current_files) w disk

  -- `Write` from the file on: the line of `size` bytes, the index and the rotation.
  unfoldable pub write_line :
      Io → AuditLog → ℕ → LogPath → Writer → Disk → WriteResult × Writer × Disk
  write_line io log size path w disk =
      if not io.write_file
      then (write_failed, w, disk)
      else finish log.app_id (
          update_index io log
            (record w {
              current_sizes =
                  insert log.app_id (count_of (lookup log.app_id w.current_sizes) + size)
                    w.current_sizes;
            })
            (record disk { log_files = append_line path log disk.log_files }))

  -- `Write` with the text of the entry.
  abbrev pub write_text :
      Io → AuditLog → LogPath → Writer → Disk → Option String → WriteResult × Writer × Disk
  write_text io log path w disk none = (marshal_failed, w, disk)
  write_text io log path w disk (some text) = write_line io log (len text + 1) path w disk

  -- `Write` with the file that getCurrentFile gives.
  abbrev pub write_to : Io → AuditLog → Option LogPath × Writer × Disk → WriteResult × Writer × Disk
  write_to io log (none, w, disk) = (open_failed, w, disk)
  write_to io log (some path, w, disk) = write_text io log path w disk (env.encode log)

  -- Write
  unfoldable pub write : Io → String → ℕ → AuditLog → Writer → Disk → WriteResult × Writer × Disk
  write io uuid now log w disk =
      let (done, entry, hc) = add_log env (with_defaults uuid now log) w.hash_chain in
      let w' = record w { hash_chain = hc } in
      if done
      then write_to io entry (get_current_file io entry.app_id entry.timestamp w' disk)
      else (hash_failed, w', disk)

-- Close
abbrev pub close : Writer → Writer
close w = record w { current_files = []; current_sizes = [] }
