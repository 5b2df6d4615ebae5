-- ===== src/Help.antt =====
-- The help of the metrics: MetricHelpButton and MetricHelpModal of
-- frontend/src/components/MetricHelpModal.tsx, and the card at the top of each tab with its help
-- button, frontend/src/components/TabBanner.tsx (icons and colours are left out).
pub mod Laws
pub mod Guide
use Prim.Native.String.{◌++◌}
use drishtiscope_oss.Common.{
  ℕ, suc, ◌-◌, String, Option, none, some, Bool, true, false, ◌==◌, if◌then◌else◌,
}
use drishtiscope_oss.Docs.{lookup, metric_docs}
use drishtiscope_oss.Docs.Types.{MetricDoc}
use drishtiscope_oss.Store.{open_metric_help, close_metric_help}
use drishtiscope_oss.Store.Types.{ScopeStore, TabType, story, basic, medium, advanced, complete}

abbrev pub described : Option MetricDoc → String
described (some doc) = "What is " ++ doc.title ++ "? (Click to view guide)"
described none = "Click to learn what this metric means"

-- The tooltip of a help button, with its `title` if that is given and not empty.
unfoldable pub tooltip_text : Option String → String → String
unfolding lookup
tooltip_text none metric_id = described (lookup metric_id metric_docs)
tooltip_text (some title) metric_id =
    if title == "" then described (lookup metric_id metric_docs) else title

-- What the modal shows: nothing without an id or without an entry for it.
unfoldable pub shown_doc : Option String → Option MetricDoc
unfolding lookup
shown_doc none = none
shown_doc (some id) = if id == "" then none else lookup id metric_docs

-- The modal listens to the keyboard while there is an id that is not empty.
unfoldable pub handle_key_down : String → ScopeStore → ScopeStore
handle_key_down key st = elim st.active_metric_help_id [
  | none ↦ st
  | some id ↦ if id == "" then st else if key == "Escape" then close_metric_help st else st
]

-- The copy button: whether the mark is shown, and how many timers are to take it away.
pub record CopyButton : Type 0 where
  pub copied : Bool
  pub timers : ℕ

abbrev pub handle_copy : CopyButton → CopyButton
handle_copy b = record { copied = true; timers = suc b.timers }

abbrev pub copy_timer : CopyButton → CopyButton
copy_timer b = record { copied = false; timers = b.timers - 1 }

pub record Info : Type 0 where
  pub title : String
  pub subtitle : String
  pub desc : String
  pub badge : String
  pub help_metric_id : String

abbrev pub info : TabType → Info
info story = record {
  title = "Process Story — Chronological Activity & AI Verdict";
  subtitle = "What has the target AI agent executed since startup?";
  desc =
      "Chronological timeline of tool invocations, files touched, network endpoints opened, and an AI execution verdict to determine whether the agent is healthy, reasoning, or stalled on I/O.";
  badge = "Activity & Narrative";
  help_metric_id = "scratchpad_sandbox";
}
info basic = record {
  title = "Overview — Core Agent Golden Signals & Reliability Vitals";
  subtitle = "How healthy and fast is the agent at the kernel level?";
  desc =
      "Continuous tracking of microsecond syscall latency quantiles (P50, P90, P99), system call traffic (RPS), SLO availability compliance, error budget burn rate, and synchronized waveforms.";
  badge = "Vitals & Golden Signals";
  help_metric_id = "slo_availability";
}
info medium = record {
  title = "Execution & CPU — Call Trees, Traces & Process Hierarchy";
  subtitle = "Where are CPU cycles and thread scheduling moments spent?";
  desc =
      "On-CPU stack profiling flamegraph breakdown (event loops, futex synchronization, token decoding), multi-lane Perfetto trace timeline, top 15 syscalls, and the active Linux process hierarchy.";
  badge = "Call Trees & Trace";
  help_metric_id = "flamegraph_cpu";
}
info advanced = record {
  title = "System Metrics — Deep Telemetry, MQL & Subsystems";
  subtitle = "What are the memory, storage, and socket characteristics?";
  desc =
      "Declarative Metrics Query Language (MQL) query bar, syscall functional categories donut (IO, Sync, Net, Mem, Proc), physical RSS vs cache allocation, storage IOPS trendlines, and TCP socket spectrum.";
  badge = "Telemetry & MQL";
  help_metric_id = "mql_query";
}
info complete = record {
  title = "Security & Logs — Audit Sandbox & Chronicle Center";
  subtitle = "Are there unauthorized access attempts or suspicious operations?";
  desc =
      "Structured JSON log explorer with severity filtering, Linux security sandbox audit (tracking EACCES permission denials and restricted path access), and 6-axis AI agent workload radar footprint.";
  badge = "Audit & Sandbox";
  help_metric_id = "ai_workload_radar";
}
