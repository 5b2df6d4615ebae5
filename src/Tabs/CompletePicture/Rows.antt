-- ===== src/Tabs/CompletePicture/Rows.antt =====
-- What frontend/src/components/tabs/CompletePictureTab.tsx draws of the log and of the stored snapshots.
-- `time` is toLocaleTimeString, and `locale` toLocaleString.
use Prim.Native.String.{◌++◌}
use drishtiscope_oss.Common.{
  ℕ, ◌+◌, String, Option, none, some, Bool, false, List, [], ◌∷◌, ◌≡◌, ◌==◌, refl, map, length,
  if◌then◌else◌, eq_iff, arith,
}
use mathlib.Core.List as Lists
use drishtiscope_oss.Common.Decimal.{decimal}
use drishtiscope_oss.Common.Fixed.{fixed_one, round_div}
use drishtiscope_oss.Common.Text.{codes}
use drishtiscope_oss.Format.{fmt_bytes, fmt_bps}
use drishtiscope_oss.Protocol.{
  Snapshot, EventRow, Category, process, syscall, file, network, compute, Json, Fields, field, end,
}
use drishtiscope_oss.Tabs.CompletePicture.{
  LogLevel, info_level, warning_level, error_level, level_name, LogFilter, LogEntry, log_rows,
  history_rows, target_comm, click_log,
}

-- The buttons over the log; each is marked where its filter is the current one.
abbrev pub filter_name : LogFilter → String
filter_name none = "ALL"
filter_name (some level) = level_name level

abbrev pub filter_buttons : List LogFilter
filter_buttons = none ∷ some info_level ∷ some warning_level ∷ some error_level ∷ []

abbrev pub is_marked : LogFilter → LogFilter → Bool
is_marked current f = filter_name current == filter_name f

-- The query that is shown over the log.
abbrev pub query_line : LogFilter → String
query_line f =
    "resource.type=\"k8s_container\" logName=~\"drishti-kernel\" "
    ++ (if filter_name f == "ALL" then "" else "severity=\"" ++ filter_name f ++ "\"")

abbrev pub level_color : LogLevel → String
level_color error_level = "bg-rose/20 text-rose"
level_color warning_level = "bg-amber/20 text-amber"
level_color info_level = "bg-blue-500/20 text-blue-400"

abbrev pub category_name : Category → String
category_name process = "process"
category_name syscall = "syscall"
category_name file = "file"
category_name network = "network"
category_name compute = "compute"

abbrev pub fields_of : List (String × Json) → Fields
fields_of [] = end
fields_of ((k, v) ∷ attrs) = field k v (fields_of attrs)

-- The value that JSON.stringify prints of an open entry.
unfoldable pub log_json : String → LogEntry → Json
log_json comm log =
    let e = log.event in
    Json.obj (
      field "insertId" (Json.str e.id) (
        field "timestamp" (Json.str e.ts) (
          field "severity" (Json.str (level_name log.sev)) (
            field "resource"
              (Json.obj (
                field "type" (Json.str "k8s_container") (
                  field "labels"
                    (Json.obj (
                      field "cluster_name" (Json.str "us-central1-c")
                        (field "container_name" (Json.str comm) end)))
                    end)))
              (field "textPayload" (Json.str (e.title ++ ": " ++ e.detail)) (
                field "jsonPayload"
                  (Json.obj (
                    field "pid" (Json.num e.pid) (
                      field "comm" (Json.str e.comm) (
                        field "category" (Json.str (category_name e.category))
                          (field "attrs" (Json.obj (fields_of e.attrs)) end)))))
                  end))))))

pub record LogRow : Type 0 where
  pub level : String
  pub color : String
  pub time : List ℕ
  pub title : String
  pub detail : String
  pub insert_id : String
  pub json : Option Json

-- `expandedLogId === log.id`
abbrev pub is_expanded : Option String → String → Bool
is_expanded none id = false
is_expanded (some expanded) id = expanded == id

unfoldable pub log_row : (String → List ℕ) → String → Option String → LogEntry → LogRow
unfolding log_json
log_row time comm expanded log = record {
  level = level_name log.sev;
  color = level_color log.sev;
  time = time log.event.ts;
  title = log.event.title;
  detail = log.event.detail;
  insert_id = "insertId: " ++ log.event.id;
  json = if is_expanded expanded log.event.id then some (log_json comm log) else none;
}

unfoldable pub log_view :
    (String → List ℕ) → LogFilter → Option String → Option Snapshot → List EventRow → List LogRow
unfolding log_row log_rows target_comm
log_view time f expanded s events =
    map (log_row time (target_comm s) expanded) (log_rows f s events)

-- A stored snapshot, as far as the table reads it: the answer's type is not given.
pub record HistoryPoint : Type 0 where
  pub id : ℕ
  pub t : ℕ
  pub comm : String
  pub pid : ℕ
  pub cpu_pct : ℕ
  pub threads : ℕ
  pub rss_bytes : ℕ
  pub syscall_s : ℕ
  pub net_tx_bps : ℕ
  pub net_rx_bps : ℕ
  pub disk_r_bps : ℕ
  pub disk_w_bps : ℕ

pub record HistoryCells : Type 0 where
  pub id : String
  pub time : List ℕ
  pub target : String
  pub cpu : List ℕ
  pub threads : ℕ
  pub rss : List ℕ
  pub syscalls : List ℕ
  pub net : List ℕ
  pub disk : List ℕ

unfoldable pub history_cells : (ℕ → List ℕ) → (ℕ → List ℕ) → HistoryPoint → HistoryCells
unfolding fixed_one round_div fmt_bytes fmt_bps
history_cells time locale pt = record {
  id = "#" ++ decimal pt.id;
  time = time pt.t;
  target = pt.comm ++ " (PID " ++ decimal pt.pid ++ ")";
  cpu = Lists.◌++◌ (fixed_one (round_div pt.cpu_pct 100)) (codes "%");
  threads = pt.threads;
  rss = fmt_bytes pt.rss_bytes;
  syscalls = locale (round_div pt.syscall_s 1000);
  net = fmt_bps (pt.net_tx_bps + pt.net_rx_bps);
  disk = fmt_bps (pt.disk_r_bps + pt.disk_w_bps);
}

-- The table: its rows, or the line that stands in their place.
pub data HistoryTable : Type 0 where
  recording : String → HistoryTable
  recorded : List HistoryCells → HistoryTable

unfoldable pub history_table : (ℕ → List ℕ) → (ℕ → List ℕ) → List HistoryPoint → HistoryTable
unfolding history_cells
history_table time locale [] = recording "Recording snapshots to SQLite TSDB..."
history_table time locale (pt ∷ pts) =
    recorded (map (history_cells time locale) (history_rows (pt ∷ pts)))

abbrev pub history_subtitle : List HistoryPoint → String
history_subtitle points =
    "Historical records persisted in drishtiscope.db ("
    ++ decimal (length points)
    ++ " snapshots loaded)"

-- A click on an entry opens it, and closes every entry of another id; on the open one, it closes it.
pub click_log-is_expanded :
    (id other : String) (expanded : Option String)
    → is_expanded (click_log id expanded) other
      ≡ (if is_expanded expanded id then false else id == other)
unfolding click_log
click_log-is_expanded id other none = refl
click_log-is_expanded id other (some e) = ground (arith, eq_iff e id, eq_iff id other)
