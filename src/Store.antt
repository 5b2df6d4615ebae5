-- ===== src/Store.antt =====
-- frontend/src/store/useScopeStore.ts: the state of the dashboard and the operations on it. An
-- operation is a function from the state to the next one; those that write `localStorage` or the
-- classes of the document also take and return the browser. The clock reading of `Date.now()` is
-- an argument. The program runs in a browser, so the tests for a missing `window` or `document`
-- pass and their other branch is left out.
pub mod Types
pub mod Graphs
pub mod Actions
pub mod Stream
pub mod Settings
pub mod Scratch
use drishtiscope_oss.Common.{
  ℕ, ◌+◌, ◌%◌, zero, suc, String, Option, none, some, Bool, true, false, not, List, [], ◌∷◌, ◌++◌,
  ◌==◌, length, drop, ltb, filter, if◌then◌else◌,
}
use drishtiscope_oss.Protocol.{Snapshot, EventRow, ConnectionStatus, connecting, Mode, HelloPayload}
use drishtiscope_oss.Browser.{Browser, get_item, set_item, remove_classes, add_class}
use Types.{
  TabType, basic, ThemeMode, light, dark, ubuntu, unix, purple, theme_name, RefreshRate, rate_name,
  ScratchGraph, ScopeStore,
}
use Graphs.{initial_scratch_graphs, reset_list}

abbrev pub all_themes : List ThemeMode
all_themes = light ∷ dark ∷ ubuntu ∷ unix ∷ purple ∷ []

-- The theme that a string names: the test `[...].includes(saved)` and the cast behind it.
unfoldable pub parse_theme : String → List ThemeMode → Option ThemeMode
parse_theme s [] = none
parse_theme s (t ∷ ts) = if theme_name t == s then some t else parse_theme s ts

unfoldable pub apply_theme_classes : ThemeMode → Browser → Browser
unfolding remove_classes add_class
apply_theme_classes t b =
    let kept = remove_classes ("light" ∷ "dark" ∷ "ubuntu" ∷ "unix" ∷ "purple" ∷ []) b.class_list in
    record b { class_list = add_class (theme_name t) kept }

-- What `localStorage` holds under the key, if it names a theme.
abbrev pub saved_theme : Option String → Option ThemeMode
saved_theme none = none
saved_theme (some saved) = parse_theme saved all_themes

abbrev pub theme_or_light : Option ThemeMode → ThemeMode
theme_or_light none = light
theme_or_light (some t) = t

unfoldable pub get_initial_theme : Browser → ThemeMode × Browser
unfolding apply_theme_classes
get_initial_theme b =
    let t = theme_or_light (saved_theme (get_item "drishti_theme" b.local_storage)) in
    (t, apply_theme_classes t b)

-- `localStorage.getItem('drishti_refresh') || '2000'`: an empty string counts as none.
abbrev pub rate_or_default : Option String → String
rate_or_default none = "2000"
rate_or_default (some r) = if r == "" then "2000" else r

-- `localStorage.getItem('drishti_antiflicker') !== 'false'`
abbrev pub flicker_on : Option String → Bool
flicker_on none = true
flicker_on (some s) = not (s == "false")

-- The initial state that `create` is given.
unfoldable pub create : Browser → ScopeStore × Browser
unfolding get_initial_theme
create b =
    let (t, b') = get_initial_theme b in
    (
      record {
        snapshot = none;
        events = [];
        connection = connecting;
        mode = none;
        hello = none;
        selected_pid = none;
        last_snapshot_at = none;
        theme = t;
        active_tab = basic;
        is_paused = false;
        time_range = "live";
        active_metric_help_id = none;
        is_chat_open = false;
        refresh_rate = rate_or_default (get_item "drishti_refresh" b.local_storage);
        anti_flicker = flicker_on (get_item "drishti_antiflicker" b.local_storage);
        scratch_graphs = initial_scratch_graphs;
      },
      b',
    )

unfoldable pub set_snapshot : ℕ → Snapshot → ScopeStore → ScopeStore
set_snapshot now s state =
    if state.is_paused
    then state
    else record state { snapshot = some s; last_snapshot_at = some now }

abbrev pub max_events : ℕ
max_events = 300

unfoldable pub add_event : EventRow → ScopeStore → ScopeStore
add_event e state =
    if state.is_paused
    then state
    else (let new_events = state.events ++ e ∷ [] in
        record state {
          events = if ltb max_events (length new_events) then drop 1 new_events else new_events;
        })

abbrev pub set_connection : ConnectionStatus → ScopeStore → ScopeStore
set_connection c state = record state { connection = c }

abbrev pub set_mode : Option Mode → ScopeStore → ScopeStore
set_mode m state = record state { mode = m }

abbrev pub set_hello : HelloPayload → ScopeStore → ScopeStore
set_hello h state = record state { hello = some h }

abbrev pub set_selected_pid : Option ℕ → ScopeStore → ScopeStore
set_selected_pid pid state = record state { selected_pid = pid }

abbrev pub toggle_pause : ScopeStore → ScopeStore
toggle_pause state = record state { is_paused = not state.is_paused }

abbrev pub set_time_range : String → ScopeStore → ScopeStore
set_time_range tr state = record state { time_range = tr }

abbrev pub open_metric_help : String → ScopeStore → ScopeStore
open_metric_help id state = record state { active_metric_help_id = some id }

abbrev pub close_metric_help : ScopeStore → ScopeStore
close_metric_help state = record state { active_metric_help_id = none }

abbrev pub set_chat_open : Bool → ScopeStore → ScopeStore
set_chat_open open_now state = record state { is_chat_open = open_now }

abbrev pub toggle_chat : ScopeStore → ScopeStore
toggle_chat state = record state { is_chat_open = not state.is_chat_open }

abbrev pub write_item : String → String → Browser → Browser
write_item k v b = record b { local_storage = set_item k v b.local_storage }

unfoldable pub set_refresh_rate : RefreshRate → ScopeStore → Browser → ScopeStore × Browser
set_refresh_rate rate state b = (
  record state { refresh_rate = rate_name rate },
  write_item "drishti_refresh" (rate_name rate) b,
)

-- `String(next)`
abbrev pub bool_name : Bool → String
bool_name true = "true"
bool_name false = "false"

unfoldable pub toggle_anti_flicker : ScopeStore → Browser → ScopeStore × Browser
toggle_anti_flicker state b =
    let next = not state.anti_flicker in
    (record state { anti_flicker = next }, write_item "drishti_antiflicker" (bool_name next) b)

unfoldable pub set_theme : ThemeMode → ScopeStore → Browser → ScopeStore × Browser
set_theme t state b = (
  record state { theme = t },
  write_item "drishti_theme" (theme_name t) (apply_theme_classes t b),
)

-- `indexOf`, plus one: 0 where it answers -1.
unfoldable pub index_of_suc : List ThemeMode → ThemeMode → ℕ → ℕ
index_of_suc [] t i = 0
index_of_suc (u ∷ us) t i =
    if theme_name u == theme_name t then i + 1 else index_of_suc us t (i + 1)

abbrev pub cycle : List ThemeMode
cycle = light ∷ dark ∷ ubuntu ∷ unix ∷ []

-- `themes[i]`, at an index that the remainder keeps within the list.
abbrev pub theme_at : List ThemeMode → ℕ → ThemeMode
theme_at [] i = light
theme_at (t ∷ ts) zero = t
theme_at (t ∷ ts) (suc i) = theme_at ts i

unfoldable pub next_theme : ThemeMode → ThemeMode
unfolding index_of_suc
next_theme t = theme_at cycle (index_of_suc cycle t 0 % length cycle)

unfoldable pub toggle_theme : ScopeStore → Browser → ScopeStore × Browser
toggle_theme state b =
    let t = next_theme state.theme in
    (
      record state { theme = t },
      write_item "drishti_theme" (theme_name t) (apply_theme_classes t b),
    )

abbrev pub set_active_tab : TabType → ScopeStore → ScopeStore
set_active_tab t state = record state { active_tab = t }

-- `graphs.filter((g) => g.id !== id)`
abbrev pub without_id : String → List ScratchGraph → List ScratchGraph
without_id id graphs = filter (λ g. not (g.id == id)) graphs

unfoldable pub add_scratch_graph : ScratchGraph → ScopeStore → ScopeStore
add_scratch_graph graph state =
    let filtered = without_id graph.id state.scratch_graphs in
    record state { scratch_graphs = filtered ++ graph ∷ [] }

unfoldable pub remove_scratch_graph : String → ScopeStore → ScopeStore
remove_scratch_graph id state = record state { scratch_graphs = without_id id state.scratch_graphs }

unfoldable pub reset_scratch_graphs : ScopeStore → ScopeStore
reset_scratch_graphs state = record state { scratch_graphs = reset_list }
