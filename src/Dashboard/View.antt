-- ===== src/Dashboard/View.antt =====
-- What frontend/src/pages/Dashboard.tsx draws: the waiting screen, or the header, the card of the tab,
-- the tab, the graphs and the status bar, each with what it is given.
use drishtiscope_oss.Common.{ℕ, String, Option, none, some, List, if◌then◌else◌}
use drishtiscope_oss.Dashboard.{target_label, target_process, shows_connecting}
use drishtiscope_oss.Help.{Info, info}
use drishtiscope_oss.Protocol.{
  Snapshot, SnapshotMeta, ProcessRow, EventRow, Mode, HelloPayload, ConnectionStatus,
}
use drishtiscope_oss.Store.Types.{ScopeStore, TabType, story, basic, medium, advanced, complete}
use drishtiscope_oss.Tabs.{list_of}

-- A tab with what it is given beside the snapshot.
pub data Content : Type 0 where
  story_tab : List EventRow → Option ProcessRow → Content
  basic_tab : Option ProcessRow → Content
  medium_tab : List EventRow → Option ℕ → Option String → Content
  advanced_tab : Content
  complete_tab : List EventRow → Content

abbrev pub active_target_comm : Option Snapshot → Option String
active_target_comm none = none
active_target_comm (some s) = some s.meta.target.comm

abbrev pub content_of : TabType → ScopeStore → Content
unfolding target_process
content_of story st = story_tab st.events (target_process st.snapshot)
content_of basic st = basic_tab (target_process st.snapshot)
content_of medium st = medium_tab st.events st.selected_pid (active_target_comm st.snapshot)
content_of advanced st = advanced_tab
content_of complete st = complete_tab st.events

abbrev pub meta_of : Option Snapshot → Option SnapshotMeta
meta_of none = none
meta_of (some s) = some s.meta

abbrev pub schema_of : Option HelloPayload → Option ℕ
schema_of none = none
schema_of (some h) = some h.schema

pub record HeaderProps : Type 0 where
  pub mode : Option Mode
  pub hello : Option HelloPayload
  pub status : ConnectionStatus
  pub label : Option String
  pub processes : List ProcessRow

pub record Page : Type 0 where
  pub header : HeaderProps
  pub banner : Info
  pub snapshot : Option Snapshot
  pub content : Content
  pub meta : Option SnapshotMeta
  pub schema : Option ℕ

pub data View : Type 0 where
  waiting : String → View
  shown : Page → View

unfoldable pub page_of : ScopeStore → Page
unfolding target_label target_process
page_of st = record {
  header = record {
    mode = st.mode;
    hello = st.hello;
    status = st.connection;
    label = target_label st.snapshot;
    processes = list_of (λ s. s.processes) st.snapshot;
  };
  banner = info st.active_tab;
  snapshot = st.snapshot;
  content = content_of st.active_tab st;
  meta = meta_of st.snapshot;
  schema = schema_of st.hello;
}

unfoldable pub view : ScopeStore → View
unfolding page_of
view st =
    if shows_connecting st.snapshot st.connection
    then waiting "Connecting to DrishtiScope..."
    else shown (page_of st)
