-- ===== src/Audit/Log.antt =====
-- internal/audit/model.go: a log entry, the paths of log files, and the index; and what the
-- package takes from the standard library and the machine.
use Prim.Native.String.{◌++◌}
use lauth.Prelude.{ℕ, String, ◌==◌, Option, List, if◌then◌else◌}
use lauth.Prelude.Dict.{Dict}

-- AuditLog; the zero time is 0, and the details are their JSON text.
pub record AuditLog : Type 0 where
  pub id : String
  pub timestamp : ℕ
  pub event_type : String
  pub user_id : String
  pub app_id : String
  pub client_ip : String
  pub request_method : String
  pub request_path : String
  pub request_query : String
  pub user_agent : String
  pub status_code : ℕ
  pub details : String
  pub prev_hash : String
  pub hash : String

pub record Date : Type 0 where
  pub year : ℕ
  pub month : ℕ
  pub day : ℕ

-- `encode` is json.Marshal, nothing where it fails; `sha256` is the digest in hexadecimal; `date`
-- and `stamp` are a time's date and its text in the local zone; `pad w n` is `%0wd`.
pub record Env : Type 0 where
  pub encode : AuditLog → Option String
  pub sha256 : String → String
  pub date : ℕ → Date
  pub stamp : ℕ → String
  pub pad : ℕ → ℕ → String

-- LogPath
pub record LogPath : Type 0 where
  pub app_id : String
  pub on : Date
  pub name : String

abbrev pub app_or_default : String → String
app_or_default app = if app == "" then "default" else app

module _ (env : Env) where
  -- NewLogPath
  abbrev pub new_log_path : String → ℕ → LogPath
  new_log_path app t = record {
    app_id = app;
    on = env.date t;
    name = "audit-" ++ (env.stamp t ++ ".log");
  }

  -- LogPath.String, for an application id that names one directory
  abbrev pub path_text : LogPath → String
  path_text p =
      app_or_default p.app_id
      ++ ("/"
          ++ (env.pad 4 p.on.year
              ++ ("/"
                  ++ (env.pad 2 p.on.month ++ ("/" ++ (env.pad 2 p.on.day ++ ("/" ++ p.name)))))))

-- AppLogStats
pub record AppLogStats : Type 0 where
  pub total_logs : ℕ
  pub event_stats : Dict ℕ
  pub size : ℕ

-- LogFileInfo
pub record LogFileInfo : Type 0 where
  pub path : LogPath
  pub start_time : ℕ
  pub end_time : ℕ
  pub size : ℕ
  pub events : Dict ℕ
  pub app_id : String

-- LogIndex
pub record LogIndex : Type 0 where
  pub start_time : ℕ
  pub end_time : ℕ
  pub files : List LogFileInfo
  pub stats : Dict ℕ
  pub app_stats : Dict AppLogStats
