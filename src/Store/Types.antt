-- ===== src/Store/Types.antt =====
-- The types of frontend/src/store/useScopeStore.ts: themes, tabs, refresh rates, scratch graphs
-- and the state of the store.
use drishtiscope_oss.Common.{ℕ, String, Option, Bool, List}
use drishtiscope_oss.Protocol.{Snapshot, EventRow, ConnectionStatus, Mode, HelloPayload}

pub data TabType : Type 0 where
  story basic medium advanced complete : TabType

pub data ThemeMode : Type 0 where
  light dark ubuntu unix purple : ThemeMode

pub data RefreshRate : Type 0 where
  r500 r1000 r2000 r5000 manual : RefreshRate

-- The string that each value of these union types is.
abbrev pub theme_name : ThemeMode → String
theme_name light = "light"
theme_name dark = "dark"
theme_name ubuntu = "ubuntu"
theme_name unix = "unix"
theme_name purple = "purple"

abbrev pub rate_name : RefreshRate → String
rate_name r500 = "500"
rate_name r1000 = "1000"
rate_name r2000 = "2000"
rate_name r5000 = "5000"
rate_name manual = "manual"

pub data ChartType : Type 0 where
  area bar line composed : ChartType

pub data DataPreset : Type 0 where
  quantile_curve runqueue_switches net_bidi thread_mem page_faults : DataPreset

pub record Series : Type 0 where
  pub key : String
  pub name : String
  pub color : String
  pub type : Option ChartType

pub record ScratchGraph : Type 0 where
  pub id : String
  pub title : String
  pub type : ChartType
  pub description : String
  pub help_metric_id : String
  pub y_axis_label : Option String
  pub series : List Series
  pub data_preset : DataPreset

-- `refresh_rate` is a string: what `localStorage` held is cast to the type, not checked.
pub record ScopeStore : Type 0 where
  pub snapshot : Option Snapshot
  pub events : List EventRow
  pub connection : ConnectionStatus
  pub mode : Option Mode
  pub hello : Option HelloPayload
  pub selected_pid : Option ℕ
  pub last_snapshot_at : Option ℕ
  pub theme : ThemeMode
  pub active_tab : TabType
  pub is_paused : Bool
  pub time_range : String
  pub active_metric_help_id : Option String
  pub is_chat_open : Bool
  pub refresh_rate : String
  pub anti_flicker : Bool
  pub scratch_graphs : List ScratchGraph
