-- ===== src/Audit/Reading.antt =====
-- What the reader of internal/audit/reader.go returns.
use Prim.Native.String.{◌++◌}
use text.Mathlib.TextLemmas.{nil-append, cons-append}
use lauth.Prelude.{ℕ, String, eq_iff, ◌≡◌, true, some, arith}
use lauth.Prelude.Dict.{lookup-insert}
use lauth.Audit.Log.{Env, LogPath, LogIndex, app_or_default, path_text}
use lauth.Audit.Writer.{Disk}
use lauth.Audit.Reader.{
  Reader, err, invalid_file_name, has_char, is_unsafe, verify_log_file, load_index, get_stats,
}

has_char-append : (k : ℕ) (s t : String) → has_char k t ≡ true → has_char k (s ++ t) ≡ true
has_char-append k String.[] t h = rw nil-append h
has_char-append k (String.◌∷◌ c s) t h = rw cons-append (ground (arith, has_char-append k s t h))

has_char-slash : (t : String) → has_char b'/' ("/" ++ t) ≡ true
has_char-slash t = rw cons-append

abbrev date_and_name : Env → LogPath → String
date_and_name env p =
    env.pad 4 p.on.year
    ++ ("/" ++ (env.pad 2 p.on.month ++ ("/" ++ (env.pad 2 p.on.day ++ ("/" ++ p.name)))))

path_has_slash : (env : Env) (p : LogPath) → has_char b'/' (path_text env p) ≡ true
path_has_slash env p =
    has_char-append b'/' (app_or_default p.app_id) ("/" ++ date_and_name env p)
      (has_char-slash (date_and_name env p))

-- No log file of the writer can be verified by its path: the path holds a `/`, and every such
-- name is refused.
pub verify_log_file-path :
    (env : Env) (p : LogPath) (disk : Disk)
    → verify_log_file env (path_text env p) disk ≡ err invalid_file_name
unfolding verify_log_file is_unsafe
verify_log_file-path env p disk = rw (path_has_slash env p)

-- Once the statistics of an application have been asked for, the reader gives the same ones ever
-- after, whatever is written to the disk.
pub get_stats_again :
    (app : String) (r : Reader) (disk disk' : Disk) (index : LogIndex)
    → (load_index app r disk).0 ≡ some index
    → (get_stats app (get_stats app r disk).1 disk').0 ≡ (get_stats app r disk).0
unfolding get_stats load_index
get_stats_again app r disk disk' index h =
    ground (arith, lookup-insert app app index r.indexes, eq_iff app app)
