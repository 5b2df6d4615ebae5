-- ===== src/Tabs/CompletePicture.antt =====
-- frontend/src/components/tabs/CompletePictureTab.tsx: the log with its filter and the entry that is
-- open, the stored snapshots, the profile of the agent, and the counts of the security chart.
pub mod Rows
use Prim.Native.String.{◌++◌}
use drishtiscope_oss.Common.{
  ℕ, String, Option, none, some, Bool, true, false, ◌==◌, List, [], ◌∷◌, map, filter, take, nat_eq,
  if◌then◌else◌,
}
use drishtiscope_oss.Common.Fallback.{field_or, text_or}
use drishtiscope_oss.Common.Text.{codes, to_lower, includes}
use drishtiscope_oss.Protocol.{Snapshot, Target, Kpis, EventRow, Severity, info, warn, crit}
use drishtiscope_oss.Tabs.{kpis_of, target_of, timeline_or}

pub data LogLevel : Type 0 where
  info_level warning_level error_level : LogLevel

abbrev pub level_name : LogLevel → String
level_name info_level = "INFO"
level_name warning_level = "WARNING"
level_name error_level = "ERROR"

-- `sev`
abbrev pub level_of : Severity → LogLevel
level_of info = info_level
level_of warn = warning_level
level_of crit = error_level

-- `logSeverity`; `none` is ALL.
abbrev pub LogFilter : Type 0
LogFilter = Option LogLevel

pub record LogEntry : Type 0 where
  pub event : EventRow
  pub sev : LogLevel

abbrev pub to_log : EventRow → LogEntry
to_log e = record { event = e; sev = level_of e.severity }

-- `===` on the levels.
abbrev pub same_level : LogLevel → LogLevel → Bool
same_level info_level info_level = true
same_level warning_level warning_level = true
same_level error_level error_level = true
same_level _ _ = false

abbrev pub passes : LogFilter → LogEntry → Bool
passes none l = true
passes (some level) l = same_level l.sev level

unfoldable pub filtered_logs : LogFilter → Option Snapshot → List EventRow → List LogEntry
filtered_logs f s events = filter (passes f) (map to_log (timeline_or s events))

-- The entries that are drawn.
unfoldable pub log_rows : LogFilter → Option Snapshot → List EventRow → List LogEntry
unfolding filtered_logs
log_rows f s events = take 35 (filtered_logs f s events)

-- The query that stands over the log.
unfoldable pub log_query : LogFilter → String
log_query none = "resource.type=\"k8s_container\" logName=~\"drishti-kernel\" "
log_query (some level) =
    "resource.type=\"k8s_container\" logName=~\"drishti-kernel\" "
    ++ ("severity=\"" ++ (level_name level ++ "\""))

-- A click on an entry, on the id of the entry that is open.
unfoldable pub click_log : String → Option String → Option String
click_log id none = some id
click_log id (some expanded) = if expanded == id then none else some id

-- `historyPoints`, when the request for them has ended: `none` is a failed request or body, and the
-- Boolean says whether the answer was a success. The points are the backend's.
unfoldable pub on_history {ℓ} : {A : Type ℓ} → Option (Bool × List A) → List A → List A
on_history none points = points
on_history (some (true, data_points)) points = data_points
on_history (some (false, data_points)) points = []

abbrev pub history_rows {ℓ} : {A : Type ℓ} → List A → List A
history_rows points = take 10 points

-- `targetComm`
unfoldable pub target_comm : Option Snapshot → String
target_comm s = text_or (λ (t : Target). t.comm) (target_of s) "agy"

unfoldable pub is_agy : Option Snapshot → Bool
unfolding target_comm to_lower includes
is_agy s = includes (to_lower (codes (target_comm s))) (codes "agy")

pub record RadarAxis : Type 0 where
  pub subject : String
  pub agent : ℕ
  pub baseline : ℕ
  pub full_mark : ℕ

unfoldable pub radar_data : Bool → List RadarAxis
radar_data agy =
    record {
      subject = "CPU Intensity";
      agent = if agy then 82 else 65;
      baseline = 40;
      full_mark = 100;
    }
    ∷ record {
      subject = "Memory Footprint";
      agent = if agy then 75 else 55;
      baseline = 35;
      full_mark = 100;
    }
    ∷ record {
      subject = "Disk I/O Velocity";
      agent = if agy then 68 else 50;
      baseline = 25;
      full_mark = 100;
    }
    ∷ record {
      subject = "Network Streaming";
      agent = if agy then 88 else 60;
      baseline = 30;
      full_mark = 100;
    }
    ∷ record {
      subject = "Syscall Volatility";
      agent = if agy then 92 else 70;
      baseline = 45;
      full_mark = 100;
    }
    ∷ record {
      subject = "Security Sensitivity";
      agent = if agy then 45 else 30;
      baseline = 15;
      full_mark = 100;
    }
    ∷ []

pub record SecurityCount : Type 0 where
  pub time : String
  pub eacces : ℕ
  pub failed_connect : ℕ
  pub sensitive_proc : ℕ

unfoldable pub security_event_counts : Option Snapshot → List SecurityCount
security_event_counts s =
    record { time = "T-20m"; eacces = 1; failed_connect = 0; sensitive_proc = 1 }
    ∷ record { time = "T-15m"; eacces = 0; failed_connect = 1; sensitive_proc = 0 }
    ∷ record { time = "T-10m"; eacces = 2; failed_connect = 0; sensitive_proc = 1 }
    ∷ record { time = "T-5m"; eacces = 1; failed_connect = 1; sensitive_proc = 0 }
    ∷ record {
      time = "Now";
      eacces =
          if nat_eq (field_or (λ (k : Kpis). k.err_syscalls_per_sec) (kpis_of s) 0) 0 then 0 else 1;
      failed_connect = 0;
      sensitive_proc = 1;
    }
    ∷ []
