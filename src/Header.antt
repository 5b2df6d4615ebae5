-- ===== src/Header.antt =====
-- frontend/src/components/Header.tsx without its search box: the tabs, the selectors, the connection
-- pill, and the request for a snapshot. Icons are left out.
pub mod Controls
pub mod Marks
use drishtiscope_oss.Common.{String, Option, some, Bool, true, false, ℕ, List, [], ◌∷◌}
use drishtiscope_oss.Protocol.{
  Snapshot, ConnectionStatus, connecting, connected, reconnecting, offline,
}
use drishtiscope_oss.Store.{set_snapshot}
use drishtiscope_oss.Store.Types.{
  ScopeStore, TabType, story, basic, medium, advanced, complete, ThemeMode, light, dark, ubuntu,
  unix,
}

abbrev pub status_color : ConnectionStatus → String
status_color connected = "bg-green"
status_color connecting = "bg-amber"
status_color reconnecting = "bg-amber"
status_color offline = "bg-rose"

pub record Tab : Type 0 where
  pub id : TabType
  pub label : String
  pub badge : String
  pub description : String

abbrev pub tabs : List Tab
tabs =
    record {
      id = story;
      label = "Process Story";
      badge = "Activity";
      description =
          "Chronological timeline of tool executions, files touched, sockets opened, and AI verdict.";
    }
    ∷ record {
      id = basic;
      label = "Overview";
      badge = "Vitals";
      description =
          "Core Agent Golden Signals: Syscall latency quantiles (P50/P90/P99), traffic RPS, and error budget.";
    }
    ∷ record {
      id = medium;
      label = "Execution & CPU";
      badge = "Call Trees";
      description =
          "Continuous on-CPU flamegraph stack profiling, Perfetto trace timeline, and live Linux process hierarchy.";
    }
    ∷ record {
      id = advanced;
      label = "System Metrics";
      badge = "Telemetry";
      description =
          "Deep operational telemetry: Metrics Query Language (MQL) console, syscall categories, and storage IOPS.";
    }
    ∷ record {
      id = complete;
      label = "Security & Logs";
      badge = "Audit";
      description =
          "Security & audit center: Structured JSON logs, Linux sandbox audit, and 6-axis AI workload radar.";
    }
    ∷ []

pub record ThemeOption : Type 0 where
  pub id : ThemeMode
  pub label : String
  pub title : String

abbrev pub theme_options : List ThemeOption
theme_options =
    record { id = light; label = "Light"; title = "Light Mode" }
    ∷ record { id = dark; label = "Dark"; title = "Dark Mode" }
    ∷ record { id = ubuntu; label = "Ubuntu"; title = "Ubuntu Mode" }
    ∷ record { id = unix; label = "Unix"; title = "Unix/Terminal Mode" }
    ∷ []

-- How the request of `loadSnapshot` ends: with a success, whose body may have no payload, with another
-- status, or with an exception.
pub data Answer : Type 0 where
  answered : Option Snapshot → Answer
  refused : Answer
  failed : Answer

-- `loadingSnap`, and how many timers are to take it back.
pub record Loading : Type 0 where
  pub loading_snap : Bool
  pub timers : ℕ

-- `loadSnapshot` up to its first `await`
abbrev pub begin_load : Loading → Loading
begin_load l = record l { loading_snap = true }

-- The rest of `loadSnapshot`; `now` is a clock reading.
unfoldable pub end_load : ℕ → Answer → Loading × ScopeStore → Loading × ScopeStore
end_load now (answered (some data')) (l, st) =
    (record l { timers = ℕ.suc l.timers }, set_snapshot now data' st)
end_load now _ (l, st) = (record l { timers = ℕ.suc l.timers }, st)

-- A timer of `loadSnapshot` that runs out.
unfoldable pub load_timer : Loading → Loading
load_timer l = elim l.timers [ ℕ.zero ↦ l | ℕ.suc n ↦ record { loading_snap = false; timers = n } ]
