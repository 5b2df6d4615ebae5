-- ===== src/Tabs/Medium/Rows.antt =====
-- What frontend/src/components/tabs/MediumTab.tsx draws of the flame stack and of the lanes. `time` is
-- toLocaleTimeString.
use Prim.Native.String.{◌++◌ as ◌+++◌}
use drishtiscope_oss.Common.{
  ℕ, String, Option, none, some, Bool, false, List, [], ◌∷◌, ◌++◌, ◌==◌, map, if◌then◌else◌,
}
use drishtiscope_oss.Common.Decimal.{decimal}
use drishtiscope_oss.Common.Fixed.{fixed_one}
use drishtiscope_oss.Common.Text.{codes}
use drishtiscope_oss.Protocol.{Snapshot, EventRow, Category}
use drishtiscope_oss.Tabs.Medium.{
  FlameNode, flame_nodes, Lane, all_lanes, syscall_lane, file_lane, network_lane, compute_lane,
  lane_rows, sev_color, cat_badge,
}

pub record FlameRow : Type 0 where
  pub name : String
  pub color : String
  pub share : List ℕ
  pub width : ℕ
  pub selected : Bool
  pub note : Option String

-- `selectedFlameNode === fn.name`
abbrev pub is_chosen : Option String → String → Bool
is_chosen none name = false
is_chosen (some chosen) name = chosen == name

-- The width is in tenths of a percent, as the share is.
unfoldable pub flame_row : Option String → FlameNode → FlameRow
unfolding fixed_one
flame_row chosen fn = record {
  name = fn.name;
  color = fn.color;
  share = fixed_one fn.pct ++ codes "%";
  width = fn.pct;
  selected = is_chosen chosen fn.name;
  note = if is_chosen chosen fn.name then some fn.desc else none;
}

unfoldable pub flame_rows : Option String → List FlameRow
unfolding flame_row
flame_rows chosen = map (flame_row chosen) flame_nodes

-- The buttons over the lanes, whose names are shown with a capital by the style, each with whether it is
-- marked.
abbrev pub lane_name : Lane → String
lane_name all_lanes = "all"
lane_name syscall_lane = "syscall"
lane_name file_lane = "file"
lane_name network_lane = "network"
lane_name compute_lane = "compute"

unfoldable pub lane_buttons : Lane → List (String × Bool)
lane_buttons current =
    map (λ lane. (lane_name lane, lane_name current == lane_name lane))
      (all_lanes ∷ syscall_lane ∷ file_lane ∷ network_lane ∷ compute_lane ∷ [])

pub record LaneRow : Type 0 where
  pub color : String
  pub badge : Category × String
  pub title : String
  pub detail : String
  pub pid : String
  pub time : List ℕ

unfoldable pub lane_row : (String → List ℕ) → EventRow → LaneRow
lane_row time ev = record {
  color = sev_color ev.severity;
  badge = (ev.category, cat_badge ev.category);
  title = ev.title;
  detail = ev.detail;
  pid = "PID " +++ decimal ev.pid;
  time = time ev.ts;
}

-- The lanes, or the line that stands in their place.
pub data Lanes : Type 0 where
  no_events : String → Lanes
  events : List LaneRow → Lanes

abbrev pub lanes_of : (String → List ℕ) → List EventRow → Lanes
unfolding lane_row
lanes_of time [] = no_events "No kernel events recorded for selected filter"
lanes_of time (e ∷ es) = events (map (lane_row time) (e ∷ es))

unfoldable pub lane_view : (String → List ℕ) → Lane → Option Snapshot → List EventRow → Lanes
unfolding lane_row lane_rows
lane_view time lane s evs = lanes_of time (lane_rows lane s evs)
