-- ===== src/Processes/Cells.antt =====
-- The cells of a row of frontend/src/components/ProcessTable.tsx.
use Prim.Native.String.{◌++◌}
use drishtiscope_oss.Common.{ℕ, String, Option, none, some, Bool, List, map, ◌==◌, if◌then◌else◌}
use drishtiscope_oss.Common.Decimal.{decimal}
use drishtiscope_oss.Common.Fallback.{or_text}
use drishtiscope_oss.Format.{pad_pid, fmt_pct, fmt_bytes}
use drishtiscope_oss.Processes.{
  Color, agent_label, is_target, is_selected, state_color, sorted_rows,
}
use drishtiscope_oss.Protocol.{ProcessRow}

pub record RowCells : Type 0 where
  pub pid : List ℕ
  pub hint : String
  pub label : String
  pub other_comm : Option String
  pub target_mark : Bool
  pub selected : Bool
  pub cpu : List ℕ
  pub rss : List ℕ
  pub threads : ℕ
  pub open_fds : ℕ
  pub state : String
  pub color : Color
  pub button : String
  pub button_title : String

unfoldable pub row_cells : Option ℕ → Option String → ProcessRow → RowCells
unfolding agent_label is_target pad_pid fmt_pct fmt_bytes
row_cells selected_pid target p =
    let label = agent_label p.comm p.cmdline in
    let mark = is_target target p in
    record {
      pid = pad_pid p.pid;
      hint = or_text p.cmdline p.comm;
      label = label;
      other_comm = if label == p.comm then none else some p.comm;
      target_mark = mark;
      selected = is_selected selected_pid target p;
      cpu = fmt_pct p.cpu_pct;
      rss = fmt_bytes p.rss_bytes;
      threads = p.threads;
      open_fds = p.open_fds;
      state = p.state;
      color = state_color p.state;
      button = if mark then "Active" else "Set Active";
      button_title =
          if mark
          then "Currently observed active agent: " ++ label
          else "Click to switch active focus to " ++ label ++ " (PID " ++ decimal p.pid ++ ")";
    }

-- The rows of the table.
unfoldable pub table_rows : Bool → Option ℕ → Option String → List ProcessRow → List RowCells
unfolding row_cells sorted_rows
table_rows anti_flicker selected_pid target processes =
    map (row_cells selected_pid target) (sorted_rows anti_flicker target processes)
