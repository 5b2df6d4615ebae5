-- ===== src/Tabs/Story/View.antt =====
-- The lists of frontend/src/components/tabs/StoryTab.tsx as they are drawn, each with the line that stands
-- in its place while it is empty.
use Prim.Native.String.{◌++◌}
use drishtiscope_oss.Common.{
  ℕ, String, Option, none, some, Bool, false, List, [], ◌∷◌, ◌==◌, map, take, drop, if◌then◌else◌,
}
use drishtiscope_oss.Common.Decimal.{decimal}
use drishtiscope_oss.Common.Text.{codes}
use drishtiscope_oss.Protocol.{Snapshot, ProcessRow, EventRow, Severity, info, warn, crit}
use drishtiscope_oss.Tabs.Story.{story_rows, label, active_pid, DiagCommand, diag_commands}
use drishtiscope_oss.Tabs.Story.Cards.{FileLine, file_lines, FlowLine, flow_lines}

-- The rows of a list, or the line in their place.
pub data Shown {ℓ} (A : Type ℓ) : Type ℓ where
  empty_line : String → Shown A
  rows : List A → Shown A

abbrev pub shown_or {ℓ} : {A : Type ℓ} → String → List A → Shown A
shown_or line [] = empty_line line
shown_or line (x ∷ xs) = rows (x ∷ xs)

pub record StoryEvent : Type 0 where
  pub severity : String
  pub color : String
  pub title : String
  pub time : List ℕ
  pub detail : String

abbrev pub severity_name : Severity → String
severity_name info = "info"
severity_name warn = "warn"
severity_name crit = "crit"

abbrev pub sev_color : Severity → String
sev_color crit = "text-rose border-rose/40 bg-rose/10"
sev_color warn = "text-amber border-amber/40 bg-amber/10"
sev_color info = "text-cyan border-cyan/40 bg-cyan/10"

-- The time is characters 11 to 18 of the event's.
unfoldable pub story_event : EventRow → StoryEvent
story_event evt = record {
  severity = severity_name evt.severity;
  color = sev_color evt.severity;
  title = evt.title;
  time = take 8 (drop 11 (codes evt.ts));
  detail = evt.detail;
}

unfoldable pub events_view : Option Snapshot → Option ProcessRow → List EventRow → Shown StoryEvent
unfolding story_event story_rows
events_view s p events =
    shown_or
      "Monitoring live process events... Operating within normal thresholds with zero kernel faults."
      (map story_event (story_rows s p events))

unfoldable pub events_subtitle : Option Snapshot → Option ProcessRow → String
unfolding label
events_subtitle s p = "Events recorded for " ++ label s p ++ " since monitoring began"

unfoldable pub files_view : Option Snapshot → Option ProcessRow → Shown FileLine
unfolding file_lines active_pid
files_view s p =
    shown_or ("Scanning /proc/" ++ decimal (active_pid s p) ++ "/fd for active file handles...")
      (file_lines s)

unfoldable pub flows_view : Option Snapshot → Shown FlowLine
unfolding flow_lines
flows_view s =
    shown_or "No active external TCP flows. Process communicates via local pipes or stdin/stdout."
      (flow_lines s)

pub record CommandRow : Type 0 where
  pub label : String
  pub cmd : String
  pub button : String

-- `copiedCmd === item.cmd`
abbrev pub is_copied : Option String → String → Bool
is_copied none cmd = false
is_copied (some copied) cmd = copied == cmd

unfoldable pub command_row : Option String → DiagCommand → CommandRow
command_row copied item = record {
  label = item.label;
  cmd = item.cmd;
  button = if is_copied copied item.cmd then "Copied" else "Copy";
}

unfoldable pub command_rows : Option Snapshot → Option ProcessRow → Option String → List CommandRow
unfolding command_row diag_commands active_pid
command_rows s p copied = map (command_row copied) (diag_commands (active_pid s p))

unfoldable pub commands_subtitle : Option Snapshot → Option ProcessRow → String
unfolding active_pid
commands_subtitle s p = "Inspect PID " ++ decimal (active_pid s p) ++ " directly from terminal"
