-- ===== src/Widgets/Cells.antt =====
-- The cells of the rows of SyscallBar, FileTable and FlowTable, and an event of Timeline, all in
-- frontend/src/components.
use Prim.Native.String.{◌++◌ as ◌+++◌}
use drishtiscope_oss.Common.{
  ℕ, String, Option, none, some, Bool, not, ◌==◌, List, [], ◌∷◌, ◌++◌, map, ltb, if◌then◌else◌,
}
use drishtiscope_oss.Common.Decimal.{decimal}
use drishtiscope_oss.Common.Fixed.{digit_codes, fixed_one, round_div}
use drishtiscope_oss.Common.Int.{ℤ}
use drishtiscope_oss.Common.Text.{codes}
use drishtiscope_oss.Format.{fmt_bytes, fmt_byte_rate, fmt_rel_time}
use drishtiscope_oss.Protocol.{SyscallStat, FileStat, NetFlow, EventRow, Category, Json}
use drishtiscope_oss.Widgets.{sorted_flows, flow_color, badge_color, severity_color}

pub record SyscallCells : Type 0 where
  pub name : String
  pub rate : List ℕ
  pub errors : Option (List ℕ)

-- The errors are marked if there are any, and else are a grey 0.
unfoldable pub syscall_cells : SyscallStat → SyscallCells
unfolding digit_codes fixed_one round_div
syscall_cells sc = record {
  name = sc.name;
  rate = digit_codes (round_div sc.count_s 1000) ++ codes "/s";
  errors = if ltb 0 sc.errors_s then some (fixed_one (round_div sc.errors_s 100)) else none;
}

pub record FileCells : Type 0 where
  pub path : String
  pub ops : List ℕ
  pub bytes : List ℕ
  pub errors : ℕ
  pub has_errors : Bool

unfoldable pub file_cells : FileStat → FileCells
unfolding fixed_one round_div fmt_byte_rate
file_cells f = record {
  path = f.path;
  ops = fixed_one (round_div f.ops_s 100);
  bytes = fmt_byte_rate f.bytes_s;
  errors = f.errors;
  has_errors = ltb 0 f.errors;
}

pub record FlowCells : Type 0 where
  pub comm : String
  pub proto : String
  pub src : String
  pub dst : String
  pub tx : List ℕ
  pub rx : List ℕ
  pub badge : Option (String × String)

-- The state and its colour; no badge without a state.
unfoldable pub flow_cells : NetFlow → FlowCells
unfolding fmt_bytes
flow_cells f = record {
  comm = f.comm;
  proto = f.proto;
  src = f.src +++ ":" +++ decimal f.sport;
  dst = f.dst +++ ":" +++ decimal f.dport;
  tx = fmt_bytes f.bytes_tx;
  rx = fmt_bytes f.bytes_rx;
  badge = if f.state == "" then none else some (f.state, flow_color f.state);
}

unfoldable pub flow_rows : List NetFlow → List FlowCells
unfolding sorted_flows flow_cells
flow_rows flows = map flow_cells (sorted_flows flows)

-- TimelineEvent: what is drawn of an event; `elapsed` is the time since it, in milliseconds.
pub record EventCells : Type 0 where
  pub color : String
  pub ago : List ℕ
  pub badge : Category × String
  pub who : String
  pub title : String
  pub detail : String
  pub attrs : Option (List (String × Json))

-- The attributes are drawn while the event is expanded, if there are any.
abbrev pub shown_attrs : Bool → List (String × Json) → Option (List (String × Json))
shown_attrs expanded [] = none
shown_attrs expanded (a ∷ attrs) = if expanded then some (a ∷ attrs) else none

unfoldable pub event_cells : Bool → ℤ → EventRow → EventCells
unfolding fmt_rel_time
event_cells expanded elapsed e = record {
  color = severity_color e.severity;
  ago = fmt_rel_time elapsed;
  badge = (e.category, badge_color e.category);
  who = "[" +++ decimal e.pid +++ "] " +++ e.comm;
  title = e.title;
  detail = e.detail;
  attrs = shown_attrs expanded e.attrs;
}

-- A click on an event.
abbrev pub toggle_expanded : Bool → Bool
toggle_expanded expanded = not expanded
