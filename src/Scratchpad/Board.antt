-- ===== src/Scratchpad/Board.antt =====
-- What frontend/src/components/GraphScratchpad.tsx draws around its charts, and what its buttons do.
use Prim.Native.String.{◌++◌}
use drishtiscope_oss.Common.{
  ℕ, String, Option, none, some, Bool, true, false, List, [], ◌∷◌, ◌≡◌, refl, length, map, ◌==◌,
}
use drishtiscope_oss.Common.Decimal.{decimal}
use drishtiscope_oss.Common.Fallback.{or_text}
use drishtiscope_oss.Scratchpad.{handle_add_preset}
use drishtiscope_oss.Scratchpad.Charts.{Chart, area_chart, chart_of}
use drishtiscope_oss.Scratchpad.Data.{Overrides, set_chart_type, current_type}
use drishtiscope_oss.Store.{set_chat_open, reset_scratch_graphs, remove_scratch_graph}
use drishtiscope_oss.Store.Types.{
  ScopeStore, ScratchGraph, ChartType, area, bar, line, composed, thread_mem, page_faults,
}

abbrev pub count_label : ScopeStore → String
count_label st = decimal (length st.scratch_graphs) ++ " Active Graphs"

-- The state of the component that its buttons change, with the store.
pub record Board : Type 0 where
  pub overrides : Overrides
  pub store : ScopeStore

pub data Button : Type 0 where
  add_thread_mem add_page_faults ask_copilot reset : Button
  choose : String → ChartType → Button
  remove : String → Button

-- `onClick`; `now` is a clock reading.
unfoldable pub on_button : ℕ → Button → Board → Board
unfolding handle_add_preset reset_scratch_graphs remove_scratch_graph set_chart_type
on_button now add_thread_mem b = record b { store = handle_add_preset now thread_mem b.store }
on_button now add_page_faults b = record b { store = handle_add_preset now page_faults b.store }
on_button now ask_copilot b = record b { store = set_chat_open true b.store }
on_button now reset b = record b { store = reset_scratch_graphs b.store }
on_button now (choose id t) b = record b { overrides = set_chart_type id t b.overrides }
on_button now (remove id) b = record b { store = remove_scratch_graph id b.store }

abbrev pub type_name : ChartType → String
type_name area = "area"
type_name bar = "bar"
type_name line = "line"
type_name composed = "composed"

-- The buttons of the chart type: each with whether it is marked.
abbrev pub type_buttons : ChartType → List (ChartType × Bool)
type_buttons current =
    (area, type_name current == "area")
    ∷ (line, type_name current == "line")
    ∷ (bar, type_name current == "bar")
    ∷ []

pub record GraphCard : Type 0 where
  pub title : String
  pub help_metric_id : String
  pub description : String
  pub types : List (ChartType × Bool)
  pub chart : Chart
  pub footer : String

abbrev pub text_else : Option String → String → String
text_else none s = s
text_else (some t) s = or_text t s

unfoldable pub graph_card : Overrides → ScratchGraph → GraphCard
unfolding current_type
graph_card overrides graph =
    let current = current_type overrides graph in
    record {
      title = graph.title;
      help_metric_id = graph.help_metric_id;
      description = graph.description;
      types = type_buttons current;
      chart = chart_of current;
      footer = text_else graph.y_axis_label "Telemetry Units";
    }

-- The cards, in the order of the store.
unfoldable pub cards : Board → List GraphCard
unfolding graph_card
cards b = map (graph_card b.overrides) b.store.scratch_graphs

-- A graph that is composed, and for which no type was chosen, is drawn as areas, and none of the buttons
-- of its type is marked.
pub composed_unmarked :
    (o : Overrides) (g : ScratchGraph)
    → o g.id ≡ none
    → g.type ≡ composed
    → ((graph_card o g).chart ≡ area_chart)
      × ((graph_card o g).types ≡ (area, false) ∷ (line, false) ∷ (bar, false) ∷ [])
unfolding graph_card
composed_unmarked o g h k = rw (h, k) (refl, refl)
