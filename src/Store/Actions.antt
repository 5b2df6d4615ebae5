-- ===== src/Store/Actions.antt =====
-- The store and the browser together, and the store's operations as one type of actions: any
-- sequence of calls that components, the WebSocket handler and the user make.
use drishtiscope_oss.Common.{ℕ, String, Option, Bool, List, [], ◌∷◌}
use drishtiscope_oss.Protocol.{Snapshot, EventRow, ConnectionStatus, Mode, HelloPayload}
use drishtiscope_oss.Browser.{Browser}
use drishtiscope_oss.Store
use drishtiscope_oss.Store.Types.{TabType, ThemeMode, RefreshRate, ScratchGraph, ScopeStore}

pub data Action : Type 0 where
  set_snapshot : ℕ → Snapshot → Action
  add_event : EventRow → Action
  set_connection : ConnectionStatus → Action
  set_mode : Option Mode → Action
  set_hello : HelloPayload → Action
  set_selected_pid : Option ℕ → Action
  set_theme : ThemeMode → Action
  toggle_theme : Action
  set_active_tab : TabType → Action
  toggle_pause : Action
  set_time_range : String → Action
  open_metric_help : String → Action
  close_metric_help : Action
  set_chat_open : Bool → Action
  toggle_chat : Action
  set_refresh_rate : RefreshRate → Action
  toggle_anti_flicker : Action
  add_scratch_graph : ScratchGraph → Action
  remove_scratch_graph : String → Action
  reset_scratch_graphs : Action

abbrev pub Page : Type 0
Page = ScopeStore × Browser

unfoldable pub step : Action → Page → Page
step (set_snapshot now s) (st, b) = (Store.set_snapshot now s st, b)
step (add_event e) (st, b) = (Store.add_event e st, b)
step (set_connection c) (st, b) = (Store.set_connection c st, b)
step (set_mode m) (st, b) = (Store.set_mode m st, b)
step (set_hello h) (st, b) = (Store.set_hello h st, b)
step (set_selected_pid p) (st, b) = (Store.set_selected_pid p st, b)
step (set_theme t) (st, b) = Store.set_theme t st b
step toggle_theme (st, b) = Store.toggle_theme st b
step (set_active_tab t) (st, b) = (Store.set_active_tab t st, b)
step toggle_pause (st, b) = (Store.toggle_pause st, b)
step (set_time_range r) (st, b) = (Store.set_time_range r st, b)
step (open_metric_help id) (st, b) = (Store.open_metric_help id st, b)
step close_metric_help (st, b) = (Store.close_metric_help st, b)
step (set_chat_open o) (st, b) = (Store.set_chat_open o st, b)
step toggle_chat (st, b) = (Store.toggle_chat st, b)
step (set_refresh_rate r) (st, b) = Store.set_refresh_rate r st b
step toggle_anti_flicker (st, b) = Store.toggle_anti_flicker st b
step (add_scratch_graph g) (st, b) = (Store.add_scratch_graph g st, b)
step (remove_scratch_graph id) (st, b) = (Store.remove_scratch_graph id st, b)
step reset_scratch_graphs (st, b) = (Store.reset_scratch_graphs st, b)

unfoldable pub run : List Action → Page → Page
run [] p = p
run (a ∷ acts) p = run acts (step a p)
