-- ===== src/Widgets/Tiles.antt =====
-- What KPITile, Panel and Timeline of frontend/src/components draw of their arguments. An argument that is
-- not given is `none`; icons, and the action and the content of a panel, are drawn as they are given.
use drishtiscope_oss.Common.{
  ℕ, String, Option, none, some, Bool, false, not, ◌==◌, ◌||◌, List, [], ◌∷◌, map_from,
  if◌then◌else◌,
}
use drishtiscope_oss.Common.Fallback.{or_text}
use drishtiscope_oss.Common.Int.{ℤ}
use drishtiscope_oss.Protocol.{EventRow}
use drishtiscope_oss.Widgets.{
  tile_help_color, delta_color, delta_text, sparkline, Point, visible_events,
}
use drishtiscope_oss.Widgets.Cells.{EventCells, event_cells}

-- `text && …`: an empty text is not drawn.
abbrev pub if_given : Option String → Option String
if_given none = none
if_given (some t) = if t == "" then none else some t

abbrev pub is_given : Option String → Bool
is_given none = false
is_given (some t) = not (t == "")

pub record TileProps : Type 0 where
  pub label : String
  pub value : String
  pub unit : Option String
  pub delta : Option ℤ
  pub spark_data : Option (List ℕ)
  pub color : Option String
  pub metric_id : Option String
  pub help_color : Option String

-- A help button: its metric and its colour.
pub record HelpButton : Type 0 where
  pub metric_id : String
  pub color : String

pub record KpiTile : Type 0 where
  pub label : String
  pub help : Option HelpButton
  pub value : String
  pub unit : Option String
  pub delta : Option (String × List ℕ)
  pub spark : Option (List Point)

-- `color = '#3dd68c'`: the default is for a colour that is not given.
abbrev pub tile_color : Option String → String
tile_color none = "#3dd68c"
tile_color (some c) = c

abbrev pub tile_help : TileProps → Option HelpButton
unfolding tile_help_color
tile_help p = elim (if_given p.metric_id) [
  | none ↦ none
  | some id ↦
      some (record { metric_id = id; color = tile_help_color p.help_color (tile_color p.color) })
]

abbrev pub tile_delta : Option ℤ → Option (String × List ℕ)
unfolding delta_color delta_text
tile_delta none = none
tile_delta (some d) = some (delta_color d, delta_text d)

-- The sparkline of a tile is 200 wide and 40 high.
abbrev pub tile_spark : Option (List ℕ) → Option (List Point)
unfolding sparkline
tile_spark none = none
tile_spark (some points) = sparkline 200 40 points

unfoldable pub kpi_tile : TileProps → KpiTile
kpi_tile p = record {
  label = p.label;
  help = tile_help p;
  value = p.value;
  unit = if_given p.unit;
  delta = tile_delta p.delta;
  spark = tile_spark p.spark_data;
}

pub record PanelProps : Type 0 where
  pub title : Option String
  pub subtitle : Option String
  pub has_action : Bool
  pub help_metric_id : Option String
  pub help_color : Option String

pub record PanelTop : Type 0 where
  pub title : Option String
  pub help : Option HelpButton
  pub subtitle : Option String

abbrev pub color_or_cyan : Option String → String
color_or_cyan none = "cyan"
color_or_cyan (some c) = or_text c "cyan"

-- The help button stands beside the title, and so only where there is one.
abbrev pub panel_help : PanelProps → Option HelpButton
panel_help p =
    if is_given p.title
    then elim (if_given p.help_metric_id) [
      | none ↦ none
      | some id ↦ some (record { metric_id = id; color = color_or_cyan p.help_color })
    ]
    else none

-- The head of a panel, where it has one.
unfoldable pub panel_top : PanelProps → Option PanelTop
panel_top p =
    if is_given p.title || (is_given p.subtitle || p.has_action)
    then some
        (record { title = if_given p.title; help = panel_help p; subtitle = if_given p.subtitle })
    else none

-- The key of an event: its id, or else its place.
pub data RowKey : Type 0 where
  by_id : String → RowKey
  by_place : ℕ → RowKey

abbrev pub row_key : ℕ → EventRow → RowKey
row_key i e = if e.id == "" then by_place i else by_id e.id

-- What a list of events draws: a text, or its events with a key for each.
pub data TimelineBody : Type 0 where
  no_events : String → TimelineBody
  rows : List (RowKey × EventCells) → TimelineBody

module _ (expanded : EventRow → Bool) (elapsed : EventRow → ℤ) where
  abbrev pub event_row : EventRow → ℕ → RowKey × EventCells
  unfolding event_cells
  event_row e i = (row_key i e, event_cells (expanded e) (elapsed e) e)

  abbrev pub timeline_body : List EventRow → TimelineBody
  timeline_body [] = no_events "No events yet..."
  timeline_body (e ∷ es) = rows (map_from event_row 0 (e ∷ es))

  unfoldable pub timeline : List EventRow → TimelineBody
  unfolding visible_events
  timeline events = timeline_body (visible_events events)
